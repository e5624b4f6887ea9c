-- ===== src/Tests/Bundles.antt =====
-- A small run as a bundle: written, verified, changed and signed.
use tracecore.Prelude.{
  ◌≡◌, ◌≢◌, ◌↔◌, refl, sym, String, Bool, true, false, Option, none, some, List, [], ◌∷◌, ◌++◌,
  ◌==◌, inl, inr, Bool-cases, Any, if◌then◌else◌, eq_iff, false≢true, subst, map,
}
use tracecore.Prelude.Int.{pos}
use tracecore.Prelude.Dict.{Dict, get, put}
use tracecore.Prelude.Text.{is_space, strip}
use tracecore.Value.{
  Value, Fields, int, str, list, dict, obj, of_list, of_dict, to_dict, get_or_null,
}
use tracecore.Value.Equality.{value_eq}
use tracecore.Exc.{ok}
use tracecore.Files.{Library, Directory}
use tracecore.Bundle.Text.{lines_by, ends_line}
use tracecore.Bundle.Text.Laws.{IsWord}
use tracecore.Bundle.Write.{
  manifest_name, calls_name, integrity_name, manifest, manifest_of, rows, call_row, folder_at,
  write_bundle,
}
use tracecore.Bundle.Verify.{verify_bundle}
use tracecore.Bundle.Verified.{IsVerified, verify_bundle_iff}
use tracecore.Bundle.Fresh.{IsReadable, IsWellAudited, verify_bundle-write_bundle}
use tracecore.Bundle.Tamper.{Lists, verify_bundle-put}
use tracecore.Bundle.Sign.{Signer, loaded, signature_name, signature_doc, marked, sign_bundle}
use tracecore.Bundle.Signed.{MarkReads, verify_bundle-sign_bundle, sign_bundle-stale}

abbrev entry : Dict Value
entry =
    ("step", int (pos 1))
    ∷ (
      "io_audit",
      list (
          of_list (
            obj (("type", str "fs") ∷ ("op", str "read_file") ∷ ("path", str "/app/a") ∷ []) ∷ [])),
    )
    ∷ []

abbrev run : Dict Value
run =
    ("run_id", str "r")
    ∷ (
      "sandbox",
      obj (
          ("filesystem_roots", list (of_list (str "/app" ∷ [])))
          ∷ ("network_hosts", list (of_list []))
          ∷ []),
    )
    ∷ ("action_trace", list (of_list (obj entry ∷ [])))
    ∷ []

abbrev manifest_value : Value
manifest_value = obj (manifest_of run 1)

abbrev row : Value
row = call_row entry

-- A library for this run.
abbrev lib : Library
lib = record {
  dump = λ v. "row";
  dump_indented = λ v. if value_eq v manifest_value then "doc" else "new";
  load = λ t.
      if t == "row"
      then some row
      else if t == "doc"
      then some manifest_value
      else some (obj (marked (manifest_of run 1)));
  sha256 = λ t. if t == "new" then "b" else "a";
}

digests : (t : String) → IsWord (lib.sha256 t)
unfolding is_space
digests t = elim (Bool-cases (t == "new")) [
  | inl e ↦ rw e (λ q. cc, (refl, tt))
  | inr e ↦ rw e (λ q. cc, (refl, tt))
]

abbrev texts : List (String × String)
texts = (manifest_name, "doc") ∷ (calls_name, "row\n") ∷ ("validator.json", "new") ∷ []

abbrev payload : String
payload = "a  manifest.json\na  tool_calls.jsonl\nb  validator.json\n"

abbrev bundle : Directory
bundle = texts ++ ((integrity_name, payload) ∷ [])

verified : verify_bundle lib bundle ≡ ok []
unfolding verify_bundle get get_or_null to_dict tracecore.Replay.Audit.guard_of
    tracecore.Value.to_list tracecore.Bundle.Verify.calls_faults lines_by strip
    tracecore.Replay.Audit.check_entries value_eq tracecore.Env.Path.under_root
    tracecore.Prelude.Text.starts_with tracecore.Bundle.Verify.integrity_faults
    tracecore.Bundle.Text.cut
verified = refl

verify_bundle_iff_example : (verify_bundle lib bundle ≡ ok []) ↔ IsVerified lib bundle
verify_bundle_iff_example = verify_bundle_iff lib bundle

readable : IsReadable lib manifest_value (row ∷ [])
unfolding value_eq strip get_or_null get
readable = record {
  manifest = refl;
  rows = (refl, tt);
  one_line = ((refl, (refl, (refl, tt))), tt);
  filled = (λ h. cc, tt);
}

verify_bundle-write_bundle_example :
    (after : Dict Directory) × (write_bundle lib run [] ≡ ok after)
    × ((verify_bundle lib (folder_at "r" after) ≡ ok [])
        ↔ IsWellAudited (get_or_null "sandbox" run) (row ∷ []))
unfolding get_or_null get manifest rows tracecore.Value.truthy tracecore.Value.to_list
    tracecore.Exc.map_result to_dict
verify_bundle-write_bundle_example =
    verify_bundle-write_bundle lib digests run "r" manifest_value (row ∷ []) [] refl refl refl
      readable

listed : Any (Lists "a" calls_name) (lines_by ends_line payload)
unfolding lines_by tracecore.Bundle.Text.cut strip
listed = inr (inl refl)

verify_bundle-put_example : ¬ (verify_bundle lib (put calls_name "new" bundle) ≡ ok [])
unfolding get
verify_bundle-put_example =
    verify_bundle-put lib bundle payload "a" calls_name "row\n" "new" verified refl listed refl
      (λ e. false≢true ((eq_iff calls_name integrity_name).1 e))
      (λ e. false≢true ((eq_iff "b" "a").1 e))

mark_reads : MarkReads lib bundle
unfolding value_eq get put to_dict
mark_reads f h =
    let e : of_dict (manifest_of run 1) ≡ f = cc in
    subst
      (λ g.
        lib.load (lib.dump_indented (obj (marked (to_dict g)))) ≡ some (obj (marked (to_dict g))))
      e refl

abbrev signer : Signer
signer = record { sign_hex = λ t. "s"; public_pem = "k" }

verify_bundle-sign_bundle_example :
    verify_bundle lib (sign_bundle lib (loaded signer) bundle).1 ≡ ok []
verify_bundle-sign_bundle_example =
    verify_bundle-sign_bundle lib digests (loaded signer) bundle mark_reads verified

manifest_listed : Any (Lists "a" manifest_name) (lines_by ends_line payload)
unfolding lines_by tracecore.Bundle.Text.cut strip
manifest_listed = inl refl

sign_bundle-stale_example :
    (get signature_name (sign_bundle lib (loaded signer) bundle).1
      ≡ some (lib.dump_indented (signature_doc signer payload)))
    × (get integrity_name (sign_bundle lib (loaded signer) bundle).1 ≢ some payload)
unfolding get value_eq to_dict put
sign_bundle-stale_example =
    sign_bundle-stale lib digests signer bundle payload "a" "doc" (of_dict (manifest_of run 1))
      mark_reads verified refl manifest_listed refl refl (λ e. false≢true ((eq_iff "b" "a").1 e))
