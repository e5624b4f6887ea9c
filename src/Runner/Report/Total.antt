-- ===== src/Runner/Report/Total.antt =====
-- The results of the loop are written out as they are.
use tracecore.Prelude.{refl, ◌≡◌, String, [], ◌∷◌, inl, inr}
use tracecore.Prelude.Int.{ℤ}
use tracecore.Prelude.Dict.{get, put}
use tracecore.Value.{Value, null, obj, truthy, get_or_null}
use tracecore.Exc.{ok}
use tracecore.Failures.{ensure_failure_type}
use tracecore.Failures.Taxonomy.{ensure-on_success, ensure-on_failure}
use tracecore.Runner.Model.{Task, Outcome}
use tracecore.Runner.Loop.Justified.{IsJustified}
use tracecore.Runner.Report.{fields, result_payload}

ensured :
    {H : Type 0} (task : Task H) (task_id : String) (version seed : ℤ) (o : Outcome)
    → IsJustified task o
    → ensure_failure_type (fields task_id version seed o) ≡ ok (fields task_id version seed o)
unfolding truthy get_or_null get put
ensured task task_id version seed o (inl (s, a)) =
    rw (ensure-on_success (fields task_id version seed o) (rw s refl), a.no_type) refl
ensured task task_id version seed o (inr (s, f)) =
    let (t, h, m) = f.kind in
    rw (ensure-on_failure (fields task_id version seed o) t (rw s refl) (rw h refl) m, h) refl

-- A justified result of the loop is always written out: `ensure_failure_type` neither raises on it
-- nor changes it, so the payload has the fields of the result, the sandbox and the empty links.
pub result_payload-total :
    {H : Type 0} (task : Task H) (task_id : String) (version : ℤ) (sandbox : Value) (seed : ℤ)
    (o : Outcome)
    → IsJustified task o
    → result_payload task_id version sandbox seed o
      ≡ ok (
          put "evidence_links"
            (obj (("bundle_dir", null) ∷ ("bundle_manifest", null) ∷ []))
            (put "sandbox" sandbox (fields task_id version seed o)))
unfolding result_payload
result_payload-total task task_id version sandbox seed o j =
    rw (ensured task task_id version seed o j) refl
