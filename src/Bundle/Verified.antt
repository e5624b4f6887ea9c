-- ===== src/Bundle/Verified.antt =====
-- Which bundles `verify_bundle` finds fine.
use tracecore.Prelude.{
  String, ◌≡◌, refl, sym, ◌∙◌, ap, ◌↔◌, Option, none, some, List, [], ◌∷◌, append-nil_iff, All, inl,
  inr, Option-cases,
}
use tracecore.Prelude.Dict.{get}
use tracecore.Value.{
  Value, Items, Fields, null, bool, int, str, list, dict, to_list, to_dict, get_or_null,
}
use tracecore.Exc.{Result, ok, ok_inj, ok-ne-raised, >>=-eq-ok}
use tracecore.Env.Network.{NetworkGuard}
use tracecore.Replay.Audit.{guard_of}
use tracecore.Files.{Library, Directory}
use tracecore.Bundle.Text.{lines_by, ends_line, breaks_line}
use tracecore.Bundle.Write.{manifest_name, calls_name, integrity_name}
use tracecore.Bundle.Verify.{
  Fault, audited, declared, sandbox_faults, manifest_faults, read_json, integrity_faults,
  verify_bundle,
}
use tracecore.Bundle.Rows.{IsCall, calls_faults_iff}
use tracecore.Bundle.Listing.{IsIntact, integrity_faults_iff}

found : {x : Fault} {xs : List Fault} → ◌≡◌ {A = Result (List Fault)} (ok (x ∷ xs)) (ok []) → ⊥
found h = cc

-- The value is a sandbox with these roots, and with hosts that make this guard.
pub record IsSandbox (sandbox : Value) (roots : Items) (guard : NetworkGuard) : Type 0 where
  pub table : Fields
  pub hosts : Items
  pub is_table : sandbox ≡ dict table
  pub has_roots : get_or_null "filesystem_roots" (to_dict table) ≡ list roots
  pub has_hosts : get_or_null "network_hosts" (to_dict table) ≡ list hosts
  pub guarded : guard_of (to_list hosts) ≡ ok guard

-- The manifest reads as an object with a sandbox, and each line of the tool calls as a call whose
-- audit keeps to it.
pub record IsDeclared (lib : Library) (manifest : Option Value) (calls : Option String)
    : Type 0 where
  pub fields : Fields
  pub roots : Items
  pub guard : NetworkGuard
  pub text : String
  pub is_manifest : manifest ≡ some (dict fields)
  pub sandbox : IsSandbox (get_or_null "sandbox" (to_dict fields)) roots guard
  pub is_text : calls ≡ some text
  pub audited : All (IsCall lib roots guard) (lines_by breaks_line text)

-- There is a listing, all whose lines are intact, and what it covers is declared.
pub record IsVerified (lib : Library) (d : Directory) : Type 0 where
  pub listing : String
  pub is_listing : get integrity_name d ≡ some listing
  pub intact : All (IsIntact lib d) (lines_by ends_line listing)
  pub declared : IsDeclared lib (read_json lib (get manifest_name d)) (get calls_name d)

module _ (lib : Library) where
  audited_sound :
      (roots hosts : Items) (calls : Option String)
      → audited lib roots hosts calls ≡ ok []
      → (guard : NetworkGuard) × (guard_of (to_list hosts) ≡ ok guard)
        × ((text : String) × (calls ≡ some text)
            × All (IsCall lib roots guard) (lines_by breaks_line text))
  audited_sound roots hosts none h =
      let (guard, g, e) = >>=-eq-ok (guard_of (to_list hosts)) _ h in absurd (found e)
  audited_sound roots hosts (some text) h =
      let (guard, g, e) = >>=-eq-ok (guard_of (to_list hosts)) _ h in
      (guard, g, (text, refl, (calls_faults_iff lib roots guard 1 (lines_by breaks_line text)).0 e))

  declared_sound :
      (r s : Value) (calls : Option String)
      → declared lib r s calls ≡ ok []
      → (roots : Items) × ((hosts : Items) × (r ≡ list roots)
          × (s ≡ list hosts)
          × (audited lib roots hosts calls ≡ ok []))
  declared_sound (list roots) (list hosts) calls h = (roots, (hosts, refl, refl, h))
  declared_sound (list roots) null calls h = absurd (found h)
  declared_sound (list roots) (bool b) calls h = absurd (found h)
  declared_sound (list roots) (int m) calls h = absurd (found h)
  declared_sound (list roots) (str t) calls h = absurd (found h)
  declared_sound (list roots) (dict f) calls h = absurd (found h)
  declared_sound null s calls h = absurd (found h)
  declared_sound (bool b) s calls h = absurd (found h)
  declared_sound (int m) s calls h = absurd (found h)
  declared_sound (str t) s calls h = absurd (found h)
  declared_sound (dict f) s calls h = absurd (found h)

  sandbox_sound :
      (v : Value) (calls : Option String)
      → sandbox_faults lib v calls ≡ ok []
      → (f : Fields) × (v ≡ dict f)
        × (declared lib
              (get_or_null "filesystem_roots" (to_dict f))
              (get_or_null "network_hosts" (to_dict f))
              calls
            ≡ ok [])
  sandbox_sound (dict f) calls h = (f, refl, h)
  sandbox_sound null calls h = absurd (found h)
  sandbox_sound (bool b) calls h = absurd (found h)
  sandbox_sound (int m) calls h = absurd (found h)
  sandbox_sound (str t) calls h = absurd (found h)
  sandbox_sound (list vs) calls h = absurd (found h)

  manifest_object :
      (m : Option Value) (calls : Option String)
      → manifest_faults lib m calls ≡ ok []
      → (f : Fields) × (m ≡ some (dict f))
        × (sandbox_faults lib (get_or_null "sandbox" (to_dict f)) calls ≡ ok [])
  manifest_object (some (dict f)) calls h = (f, refl, h)
  manifest_object none calls h = absurd (found h)
  manifest_object (some null) calls h = absurd (ok-ne-raised (sym h))
  manifest_object (some (bool b)) calls h = absurd (ok-ne-raised (sym h))
  manifest_object (some (int m)) calls h = absurd (ok-ne-raised (sym h))
  manifest_object (some (str t)) calls h = absurd (ok-ne-raised (sym h))
  manifest_object (some (list vs)) calls h = absurd (ok-ne-raised (sym h))

  manifest_sound :
      (m : Option Value) (calls : Option String)
      → manifest_faults lib m calls ≡ ok []
      → IsDeclared lib m calls
  manifest_sound m calls h =
      let (fields, e, s) = manifest_object m calls h in
      let (table, t, d) = sandbox_sound (get_or_null "sandbox" (to_dict fields)) calls s in
      let (roots, (hosts, r, n, a)) =
        declared_sound (get_or_null "filesystem_roots" (to_dict table))
          (get_or_null "network_hosts" (to_dict table)) calls d in
      let (guard, g, (text, c, lines)) = audited_sound roots hosts calls a in
      record {
        fields = fields;
        roots = roots;
        guard = guard;
        text = text;
        is_manifest = e;
        sandbox = record {
          table = table;
          hosts = hosts;
          is_table = t;
          has_roots = r;
          has_hosts = n;
          guarded = g;
        };
        is_text = c;
        audited = lines;
      }

  manifest_complete :
      (m : Option Value) (calls : Option String)
      → IsDeclared lib m calls
      → manifest_faults lib m calls ≡ ok []
  manifest_complete m calls d =
      let s = d.sandbox in
      rw
        (
          d.is_manifest,
          s.is_table,
          s.has_roots,
          s.has_hosts,
          s.guarded,
          d.is_text,
          (calls_faults_iff lib d.roots d.guard 1 (lines_by breaks_line d.text)).1 d.audited,
        )
        refl

  IsVerified-sound : (d : Directory) → verify_bundle lib d ≡ ok [] → IsVerified lib d
  unfolding verify_bundle
  IsVerified-sound d h = elim (Option-cases (get integrity_name d)) [
    | inl m ↦ absurd (found (rw (verify_bundle, m) at h))
    | inr (listing, e) ↦
        let (rest, r, both) =
          >>=-eq-ok (manifest_faults lib (read_json lib (get manifest_name d)) (get calls_name d)) _
            (rw (verify_bundle, e) at h) in
        let (intact, none_left) =
          (append-nil_iff (integrity_faults lib d (lines_by ends_line listing)) rest).0
            (ok_inj both) in
        record {
          listing = listing;
          is_listing = e;
          intact = (integrity_faults_iff lib d (lines_by ends_line listing)).0 intact;
          declared =
              manifest_sound (read_json lib (get manifest_name d)) (get calls_name d)
                (r ∙ ap ok none_left);
        }
  ]

  verified_complete : (d : Directory) → IsVerified lib d → verify_bundle lib d ≡ ok []
  unfolding verify_bundle
  verified_complete d v =
      rw
        (
          verify_bundle,
          v.is_listing,
          manifest_complete (read_json lib (get manifest_name d)) (get calls_name d) v.declared,
          (integrity_faults_iff lib d (lines_by ends_line v.listing)).1 v.intact,
        )
        refl

  -- `verify_bundle` finds nothing exactly when: there is a listing, each of its lines that is not
  -- blank gives a file that is there the digest of its text; the manifest reads as an object with a
  -- sandbox, whose roots and hosts are lists; and each line of the tool calls that is not blank reads
  -- as an object with a list of accesses, each of a path that a root covers or of a host that the
  -- guard lets through.
  pub verify_bundle_iff : (d : Directory) → (verify_bundle lib d ≡ ok []) ↔ IsVerified lib d
  verify_bundle_iff d = (IsVerified-sound d, verified_complete d)
