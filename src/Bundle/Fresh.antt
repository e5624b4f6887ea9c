-- ===== src/Bundle/Fresh.antt =====
-- A bundle that was just written, and what `verify_bundle` says of it.
use tracecore.Prelude.{ℕ, String, ◌≡◌, ◌≢◌, refl, sym, ◌∙◌, ap, ◌↔◌, some, List, [], ◌∷◌, map, All}
use tracecore.Prelude.Dict.{Dict, get, put, get-put, get-put_self}
use tracecore.Prelude.Text.{strip}
use tracecore.Value.{Value, Items, Fields, dict, obj, of_dict, to_dict, get_or_null}
use tracecore.Exc.{ok, ok_inj, >>=-eq-ok}
use tracecore.Env.Network.{NetworkGuard}
use tracecore.Files.{Library, Directory}
use tracecore.Bundle.Text.{lines_by, breaks_line}
use tracecore.Bundle.Text.Laws.{Lacks, IsWord, lines_by-written_lines}
use tracecore.Bundle.Write.{
  manifest_name, calls_name, validator_name, integrity_name, manifest, manifest_of, len, trace_of,
  rows, named, written_lines, validator_snapshot, folder_at, listing, contents, filled,
  write_bundle,
}
use tracecore.Bundle.Verify.{verify_bundle, read_json}
use tracecore.Bundle.Rows.{IsAudited, IsCall, blank, call}
use tracecore.Bundle.Listed.{
  manifest_name-IsName, calls_name-IsName, validator_name-IsName, listing-IsIntact,
}
use tracecore.Bundle.Verified.{IsSandbox, IsVerified, verify_bundle_iff}

-- What was written reads back: the manifest, and each row, which stands on one line.
pub record IsReadable (lib : Library) (m : Value) (calls : List Value) : Type 0 where
  pub manifest : lib.load (lib.dump_indented m) ≡ some m
  pub rows : All (λ row. lib.load (lib.dump row) ≡ some row) calls
  pub one_line : All (Lacks breaks_line) (map lib.dump calls)
  pub filled : All (λ row. strip (lib.dump row) ≢ "") calls

-- The value is a sandbox, and each row has an audit that keeps to it.
pub record IsWellAudited (sandbox : Value) (calls : List Value) : Type 0 where
  pub roots : Items
  pub guard : NetworkGuard
  pub is_sandbox : IsSandbox sandbox roots guard
  pub audited : All (IsAudited roots guard) calls

get_manifest :
    (lib : Library) (m snapshot : Value) (calls : List Value) (d : Directory)
    → get manifest_name (filled lib (contents lib m calls snapshot) d) ≡ some (lib.dump_indented m)
get_manifest lib m snapshot calls d = rw (get-put, get-put, get-put, get-put) refl

get_calls :
    (lib : Library) (m snapshot : Value) (calls : List Value) (d : Directory)
    → get calls_name (filled lib (contents lib m calls snapshot) d)
      ≡ some (written_lines (map lib.dump calls))
get_calls lib m snapshot calls d = rw (get-put, get-put, get-put) refl

get_validator :
    (lib : Library) (m snapshot : Value) (calls : List Value) (d : Directory)
    → get validator_name (filled lib (contents lib m calls snapshot) d)
      ≡ some (lib.dump_indented snapshot)
get_validator lib m snapshot calls d = rw (get-put, get-put) refl

-- The manifest is an object, and its sandbox is that of the run.
manifest-sandbox :
    (result : Dict Value) (m : Value)
    → manifest result ≡ ok m
    → (f : Fields) × (m ≡ dict f)
      × (get_or_null "sandbox" (to_dict f) ≡ get_or_null "sandbox" result)
unfolding manifest
manifest-sandbox result m h =
    let (n, l, e) = >>=-eq-ok (len (trace_of result)) (λ n. ok (obj (manifest_of result n))) h in
    (of_dict (manifest_of result n), sym (ok_inj e), sandbox_at result n)
  where
    sandbox_at :
        (result : Dict Value) (n : ℕ)
        → get_or_null "sandbox" (to_dict (of_dict (manifest_of result n)))
          ≡ get_or_null "sandbox" result
    sandbox_at result n = unfold to_dict get_or_null get in refl

module _ (lib : Library) (roots : Items) (guard : NetworkGuard) where
  call_audited :
      (row : Value)
      → lib.load (lib.dump row) ≡ some row
      → strip (lib.dump row) ≢ ""
      → IsCall lib roots guard (lib.dump row)
      → IsAudited roots guard row
  call_audited row l n (blank b) = absurd (n b)
  call_audited row l n (call other l' a) =
      let same : some other ≡ some row = sym l' ∙ l in let e : other ≡ row = cc in rw (← e) a

  audited_iff :
      (calls : List Value)
      → All (λ row. lib.load (lib.dump row) ≡ some row) calls
      → All (λ row. strip (lib.dump row) ≢ "") calls
      → All (IsCall lib roots guard) (map lib.dump calls) ↔ All (IsAudited roots guard) calls
  audited_iff [] l n = (λ h. tt, λ h. tt)
  audited_iff (row ∷ calls) l n =
      let rest = audited_iff calls l.1 n.1 in
      (λ h. (call_audited row l.0 n.0 h.0, rest.0 h.1), λ h. (call row l.0 h.0, rest.1 h.1))

module _ (lib : Library) (digests : (t : String) → IsWord (lib.sha256 t)) (result : Dict Value)
    (m snapshot : Value) (calls : List Value) (old : Directory) (m_lem : manifest result ≡ ok m)
    (readable : IsReadable lib m calls) where
  abbrev d : Directory
  d = filled lib (contents lib m calls snapshot) old

  lines : lines_by breaks_line (written_lines (map lib.dump calls)) ≡ map lib.dump calls
  lines = lines_by-written_lines breaks_line (map lib.dump calls) refl readable.one_line

  fresh_sound : IsVerified lib d → IsWellAudited (get_or_null "sandbox" result) calls
  fresh_sound v =
      let c = v.declared in
      let (f, e, s) = manifest-sandbox result m m_lem in
      let read : read_json lib (get manifest_name d) ≡ some (dict f) =
        rw (get_manifest lib m snapshot calls old) (readable.manifest ∙ ap some e) in
      let same : some (dict c.fields) ≡ some (dict f) = sym c.is_manifest ∙ read in
      let g : c.fields ≡ f = cc in
      let text : some c.text ≡ some (written_lines (map lib.dump calls)) =
        sym c.is_text ∙ get_calls lib m snapshot calls old in
      let t : c.text ≡ written_lines (map lib.dump calls) = cc in
      record {
        roots = c.roots;
        guard = c.guard;
        is_sandbox = rw (← s, ← g) c.sandbox;
        audited =
            (audited_iff lib c.roots c.guard calls readable.rows readable.filled).0
              (rw (t, lines) at c.audited);
      }

  fresh_complete : IsWellAudited (get_or_null "sandbox" result) calls → IsVerified lib d
  fresh_complete a =
      let (f, e, s) = manifest-sandbox result m m_lem in
      let files = contents lib m calls snapshot in
      record {
        listing = listing lib files;
        is_listing = get-put_self integrity_name (listing lib files) _;
        intact =
            listing-IsIntact lib digests d files
              (manifest_name-IsName, (calls_name-IsName, (validator_name-IsName, tt)))
              (
                get_manifest lib m snapshot calls old,
                (get_calls lib m snapshot calls old, (get_validator lib m snapshot calls old, tt)),
              );
        declared = record {
          fields = f;
          roots = a.roots;
          guard = a.guard;
          text = written_lines (map lib.dump calls);
          is_manifest = rw (get_manifest lib m snapshot calls old) (readable.manifest ∙ ap some e);
          sandbox = rw s a.is_sandbox;
          is_text = get_calls lib m snapshot calls old;
          audited =
              rw lines
                ((audited_iff lib a.roots a.guard calls readable.rows readable.filled).1 a.audited);
        };
      }

-- Let the digests be words, and let what is written read back, each row from one line. Then a run
-- with an id, a trace that can be counted and rows is written to a bundle, whatever stood in its
-- directory; and that bundle verifies exactly when the run's sandbox is declared and the audit of
-- each row keeps to it.
pub verify_bundle-write_bundle :
    (lib : Library)
    → ((t : String) → IsWord (lib.sha256 t))
    → (result : Dict Value) (run_id : String) (m : Value) (calls : List Value)
      (bundles : Dict Directory)
    → named (get_or_null "run_id" result) ≡ ok run_id
    → manifest result ≡ ok m
    → rows result ≡ ok calls
    → IsReadable lib m calls
    → (after : Dict Directory) × (write_bundle lib result bundles ≡ ok after)
      × ((verify_bundle lib (folder_at run_id after) ≡ ok [])
          ↔ IsWellAudited (get_or_null "sandbox" result) calls)
unfolding write_bundle
verify_bundle-write_bundle lib digests result run_id m calls bundles i p q readable =
    let old = folder_at run_id bundles in
    let snapshot = validator_snapshot result in
    let d : Directory = filled lib (contents lib m calls snapshot) old in
    (
      put run_id d bundles,
      rw (i, p, q) refl,
      rw (folder_at, get-put_self run_id d bundles)
          (
            λ h.
                fresh_sound lib digests result m snapshot calls old p readable
                  ((verify_bundle_iff lib d).0 h),
            λ a.
                (verify_bundle_iff lib d).1
                  (fresh_complete lib digests result m snapshot calls old p readable a),
          ),
    )
