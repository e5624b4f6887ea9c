-- ===== src/Bundle/Signed.antt =====
-- A bundle that was signed.
use tracecore.Prelude.{
  String, ◌≡◌, ◌≢◌, refl, sym, ◌∙◌, Option, none, some, List, [], ◌∷◌, All, Any, inl, inr,
  Option-cases,
}
use tracecore.Prelude.Dict.{Dict, get, put, get-put, get-put_self}
use tracecore.Value.{Value, to_dict-of_dict, Fields, dict, obj, of_dict, to_dict, get_or_null}
use tracecore.Value.Defaults.{get_or_null-put}
use tracecore.Exc.{ok}
use tracecore.Files.{Library, Directory}
use tracecore.Bundle.Text.{lines_by, ends_line}
use tracecore.Bundle.Text.Laws.{IsWord}
use tracecore.Bundle.Write.{manifest_name, integrity_name, written_lines, listing}
use tracecore.Bundle.Verify.{verify_bundle, read_json}
use tracecore.Bundle.Listing.{IsIntact}
use tracecore.Bundle.Listed.{
  IsName, listing-IsIntact, manifest_name-IsName, calls_name-IsName, validator_name-IsName,
}
use tracecore.Bundle.Verified.{IsVerified, verify_bundle_iff}
use tracecore.Bundle.Tamper.{Lists, listed_digest}
use tracecore.Bundle.Sign.{
  signature_name, Signer, Key, not_found, no_package, other_kind, unreadable, loaded, signature_doc,
  marked, relisting, covered_names, relisted, sign_with, mark_text, signed, sign_bundle,
}

-- The files that the new listing covers: those before the first that is missing.
abbrev present_then : String → Option String → List (String × String) → List (String × String)
present_then name none rest = []
present_then name (some text) rest = (name, text) ∷ rest

present : Directory → List String → List (String × String)
present d [] = []
present d (name ∷ names) = present_then name (get name d) (present d names)

relisting-listing :
    (lib : Library) (d : Directory) (names : List String)
    → relisting lib d names ≡ listing lib (present d names)
unfolding relisting present written_lines
relisting-listing lib d [] = refl
relisting-listing lib d (name ∷ names) = elim (Option-cases (get name d)) [
  | inl m ↦ rw m refl
  | inr (text, g) ↦ rw (g, relisting-listing lib d names) refl
]

present-IsName :
    (d : Directory) (names : List String)
    → All IsName names
    → All (λ f. IsName (f.0)) (present d names)
unfolding present
present-IsName d [] h = tt
present-IsName d (name ∷ names) h = elim (Option-cases (get name d)) [
  | inl m ↦ rw m tt
  | inr (text, g) ↦ rw g (h.0, present-IsName d names h.1)
]

present-get :
    (d e : Directory) (names : List String)
    → All (λ name. get name e ≡ get name d) names
    → All (λ f. get (f.0) e ≡ some (f.1)) (present d names)
unfolding present
present-get d e [] h = tt
present-get d e (name ∷ names) h = elim (Option-cases (get name d)) [
  | inl m ↦ rw m tt
  | inr (text, g) ↦ rw g (h.0 ∙ g, present-get d e names h.1)
]

-- A new listing is intact in a directory that holds the same files.
relisting-IsIntact :
    (lib : Library) (digests : (t : String) → IsWord (lib.sha256 t)) (d e : Directory)
    → All (λ name. get name e ≡ get name d) covered_names
    → All (IsIntact lib e) (lines_by ends_line (relisting lib d covered_names))
relisting-IsIntact lib digests d e same =
    let names : All IsName covered_names =
      (manifest_name-IsName, (calls_name-IsName, (validator_name-IsName, tt))) in
    rw (relisting-listing lib d covered_names) (
      listing-IsIntact lib digests e (present d covered_names)
        (present-IsName d covered_names names) (present-get d e covered_names same))

-- The mark leaves the sandbox alone.
marked-sandbox :
    (m : Dict Value)
    → get_or_null "sandbox" (to_dict (of_dict (marked m))) ≡ get_or_null "sandbox" m
marked-sandbox m =
    rw (to_dict-of_dict (marked m), get_or_null-put, get_or_null-put, get_or_null-put) refl

module _ (lib : Library) where
  mark : (f : Fields) → String
  mark f = lib.dump_indented (obj (marked (to_dict f)))

  -- With a manifest that is an object, the marked manifest and a new listing are put.
  abbrev remarked : Fields → Directory → Directory
  remarked f d = relisted lib (put manifest_name (mark f) d)

  mark_text-remarked :
      (f : Fields) (o : Option String) (d : Directory)
      → read_json lib o ≡ some (dict f)
      → mark_text lib o d ≡ remarked f d
  unfolding mark
  mark_text-remarked f none d h = cc
  mark_text-remarked f (some text) d h = rw h refl

  abbrev with_signature : Signer → String → Directory → Directory
  with_signature s payload d = put signature_name (lib.dump_indented (signature_doc s payload)) d

  signed-remarked :
      (s : Signer) (payload : String) (d : Directory) (f : Fields)
      → read_json lib (get manifest_name d) ≡ some (dict f)
      → signed lib s payload d ≡ remarked f (with_signature s payload d)
  signed-remarked s payload d f h =
      mark_text-remarked f (get manifest_name (with_signature s payload d))
        (with_signature s payload d) (rw get-put h)

  -- The manifest as it is written back reads back.
  abbrev pub MarkReads : Directory → Type 0
  MarkReads d =
      (f : Fields)
      → read_json lib (get manifest_name d) ≡ some (dict f)
      → lib.load (lib.dump_indented (obj (marked (to_dict f)))) ≡ some (obj (marked (to_dict f)))

  sign_bundle-sign_with :
      (key : Key) (d : Directory) (payload : String)
      → get integrity_name d ≡ some payload
      → sign_bundle lib key d ≡ sign_with lib key payload d
  unfolding sign_bundle
  sign_bundle-sign_with key d payload h = rw (sign_bundle, h) refl

module _ (lib : Library) (digests : (t : String) → IsWord (lib.sha256 t)) where
  remarked-IsVerified :
      (s : Signer) (payload : String) (d : Directory)
      → MarkReads lib d
      → (v : IsVerified lib d)
      → IsVerified lib (remarked lib v.declared.fields (with_signature lib s payload d))
  unfolding mark
  remarked-IsVerified s payload d reads v =
      let c = v.declared in
      let e = put manifest_name (mark lib c.fields) (with_signature lib s payload d) in
      let written : get manifest_name (relisted lib e) ≡ some (mark lib c.fields) =
        rw (get-put, get-put_self) refl in
      record {
        listing = relisting lib e covered_names;
        is_listing = get-put_self integrity_name (relisting lib e covered_names) e;
        intact =
            relisting-IsIntact lib digests e (relisted lib e)
              (rw get-put refl, (rw get-put refl, (rw get-put refl, tt)));
        declared = record {
          fields = of_dict (marked (to_dict c.fields));
          roots = c.roots;
          guard = c.guard;
          text = c.text;
          is_manifest = rw written (reads c.fields c.is_manifest);
          sandbox = rw (marked-sandbox (to_dict c.fields)) c.sandbox;
          is_text = rw (get-put, get-put, get-put) c.is_text;
          audited = c.audited;
        };
      }

  sign_with-IsVerified :
      (key : Key) (payload : String) (d : Directory)
      → MarkReads lib d
      → IsVerified lib d
      → IsVerified lib (sign_with lib key payload d).1
  sign_with-IsVerified not_found payload d reads v = v
  sign_with-IsVerified no_package payload d reads v = v
  sign_with-IsVerified other_kind payload d reads v = v
  sign_with-IsVerified unreadable payload d reads v = v
  sign_with-IsVerified (loaded s) payload d reads v =
      rw (signed-remarked lib s payload d v.declared.fields v.declared.is_manifest)
        (remarked-IsVerified s payload d reads v)

  -- Let the digests be words, and let the manifest read back as it is written with its mark. Then a
  -- bundle that verifies still verifies after `sign_bundle`, whatever becomes of the key.
  pub verify_bundle-sign_bundle :
      (key : Key) (d : Directory)
      → MarkReads lib d
      → verify_bundle lib d ≡ ok []
      → verify_bundle lib (sign_bundle lib key d).1 ≡ ok []
  verify_bundle-sign_bundle key d reads h =
      let v = (verify_bundle_iff lib d).0 h in
      (verify_bundle_iff lib (sign_bundle lib key d).1).1 (
        rw (sign_bundle-sign_with lib key d v.listing v.is_listing)
          (sign_with-IsVerified key v.listing d reads v))

  -- A digest of the manifest in the new listing is that of the marked manifest.
  mark_digest :
      (s : Signer) (payload : String) (d : Directory) (expected : String) (f : Fields)
      → let e = put manifest_name (mark lib f) (with_signature lib s payload d) in
        Any (Lists expected manifest_name) (lines_by ends_line (relisting lib e covered_names))
        → expected ≡ lib.sha256 (mark lib f)
  mark_digest s payload d expected f a =
      let e = put manifest_name (mark lib f) (with_signature lib s payload d) in
      listed_digest lib (relisted lib e) expected manifest_name (mark lib f)
        (lines_by ends_line (relisting lib e covered_names))
        (relisting-IsIntact lib digests e (relisted lib e)
          (rw get-put refl, (rw get-put refl, (rw get-put refl, tt))))
        a (rw (get-put, get-put_self) refl)

  -- In a bundle that verifies and whose listing names the manifest, let the manifest have another
  -- digest with its mark. Then `sign_bundle` files the signature of the listing as it was, and leaves
  -- another listing: the signature that it files is of a text that the bundle no longer holds.
  pub sign_bundle-stale :
      (s : Signer) (d : Directory) (payload expected old : String) (f : Fields)
      → MarkReads lib d
      → verify_bundle lib d ≡ ok []
      → get integrity_name d ≡ some payload
      → Any (Lists expected manifest_name) (lines_by ends_line payload)
      → get manifest_name d ≡ some old
      → lib.load old ≡ some (dict f)
      → lib.sha256 (lib.dump_indented (obj (marked (to_dict f)))) ≢ lib.sha256 old
      → let after = (sign_bundle lib (loaded s) d).1 in
        (get signature_name after ≡ some (lib.dump_indented (signature_doc s payload)))
        × (get integrity_name after ≢ some payload)
  unfolding mark
  sign_bundle-stale s d payload expected old f reads h l a g r differ =
      let v = (verify_bundle_iff lib d).0 h in
      let e = put manifest_name (mark lib f) (with_signature lib s payload d) in
      let same : some v.listing ≡ some payload = sym v.is_listing ∙ l in
      let was : v.listing ≡ payload = cc in
      let before : expected ≡ lib.sha256 old =
        listed_digest lib d expected manifest_name old (lines_by ends_line payload)
          (rw was at v.intact) a g in
      let state : (sign_bundle lib (loaded s) d).1 ≡ relisted lib e =
        rw (sign_bundle-sign_with lib (loaded s) d payload l)
          (signed-remarked lib s payload d f (rw g r)) in
      rw state (
        rw (get-put, get-put, get-put_self) refl,
        λ q.
            let kept : some (relisting lib e covered_names) ≡ some payload =
              sym (get-put_self integrity_name (relisting lib e covered_names) e) ∙ q in
            let text : relisting lib e covered_names ≡ payload = cc in
            differ (sym (mark_digest s payload d expected f (rw (← text) at a)) ∙ before),
      )
