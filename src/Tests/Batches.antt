-- ===== src/Tests/Batches.antt =====
-- A batch of two jobs.
use mathlib.Core.List.{Permᴰ}
use tracecore.Prelude.{refl, ◌≡◌, String, Bool, Option, none, some, List, [], ◌∷◌, true, false, All}
use tracecore.Prelude.Int.{pos}
use tracecore.Prelude.Dict.{Dict, get}
use tracecore.Value.{Value, bool, get_or_null}
use tracecore.Exc.{Result, ok, raised}
use tracecore.Batch.{
  BatchJob, Batch, Done, came_back, lost, completed, run_batch, percentile, no_jobs,
}
use tracecore.Batch.Counts.{IsCounted, run_batch-IsCounted}
use tracecore.Batch.Strict.{spec_check, IsPassed, run_batch-IsPassed}
use tracecore.Batch.Order.{SameButOrder, run_batch-SameButOrder}
use tracecore.Tests.Artifacts.{text_of, artifact}

abbrev job : BatchJob
job = record { agent = "a"; task_ref = "d@1"; seed = pos 0; timeout = none; metadata = [] }

abbrev here : BatchJob × Done
here = (job, came_back (completed 20 (("success", bool true) ∷ [])))

abbrev there : BatchJob × Done
there = (job, lost "broken pool")

abbrev accept : Dict Value → Result (Bool × List String)
accept d = ok (true, [])

abbrev batch_of : Result Batch → Batch
batch_of (ok b) = b
batch_of (raised e) = no_jobs

abbrev batch : Batch
batch = batch_of (run_batch accept false none 4 (here ∷ there ∷ []))

run_batch-IsCounted_example : IsCounted (here ∷ there ∷ []) batch
unfolding run_batch tracecore.Batch.batch_results
run_batch-IsCounted_example = run_batch-IsCounted accept false none 4 (here ∷ there ∷ []) batch refl

run_batch-SameButOrder_example :
    (c : Batch) × (run_batch accept false none 4 (there ∷ here ∷ []) ≡ ok c)
    × SameButOrder accept false batch c
unfolding run_batch tracecore.Batch.batch_results
run_batch-SameButOrder_example =
    run_batch-SameButOrder accept false none 4 (here ∷ there ∷ []) (there ∷ here ∷ [])
      (Permᴰ.swap refl refl) batch refl

-- A job whose artifact complies, in a strict batch.
abbrev schema : Dict Value → Option (List String)
schema d = some []

abbrev strict : Batch
strict = batch_of (
    run_batch (spec_check text_of text_of "schema.json" schema) true (some 2) 4
      ((job, came_back (completed 20 artifact)) ∷ []))

run_batch-IsPassed_example : All (IsPassed text_of text_of "schema.json" schema) strict.results
unfolding run_batch tracecore.Batch.batch_results tracecore.Spec.check_spec_compliance get_or_null
    get
run_batch-IsPassed_example =
    run_batch-IsPassed text_of text_of "schema.json" schema (some 2) 4
      ((job, came_back (completed 20 artifact)) ∷ []) strict refl
