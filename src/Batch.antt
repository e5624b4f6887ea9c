-- ===== src/Batch.antt =====
-- agent_bench/runner/batch.py: jobs that run in other processes, their results in the order in which
-- they come back, and the summary. Wall-clock times are whole milliseconds; the processes, the clock
-- and the schema validator are arguments.
pub mod Counts
pub mod Strict
pub mod Order
pub mod Percentile
use tracecore.Prelude.{
  ℕ, zero, suc, ◌+◌, ◌-◌, ◌*◌, ◌/◌, String, Bool, true, false, not, Option, none, some, List, [],
  ◌∷◌, length, get_elem?, filter, map, eqb, ltb, leb, is_empty, if◌then◌else◌,
}
use tracecore.Prelude.Int.{ℤ}
use tracecore.Prelude.Dict.{Dict}
use tracecore.Prelude.Text.{◌<>◌, join}
use tracecore.Prelude.Sort.{sort_by}
use tracecore.Value.{Value, truthy, get_or_null}
use tracecore.Exc.{Result, ok, raised, ◌>>=◌}

pub record BatchJob : Type 0 where
  pub agent : String
  pub task_ref : String
  pub seed : ℤ
  pub timeout : Option ℕ
  pub metadata : Dict Value

pub record BatchResult : Type 0 where
  pub job : BatchJob
  pub result : Option (Dict Value)
  pub error : Option String
  pub wall_clock : ℕ
  pub success : Bool

-- `timeout or j.timeout`
abbrev pub job_timeout : Option ℕ → BatchJob → Option ℕ
job_timeout none j = j.timeout
job_timeout (some zero) j = j.timeout
job_timeout (some (suc n)) j = some (suc n)

-- What a run in the worker comes to: a result, a time limit, or another exception with its type.
pub data Attempt : Type 0 where
  returned : Dict Value → Attempt
  timed_out : String → Attempt
  failed : String → String → Attempt

-- The dict that a worker gives back.
pub data Raw : Type 0 where
  completed : ℕ → Dict Value → Raw
  broken : ℕ → String → Raw

abbrev raw_of : ℕ → Attempt → Raw
raw_of elapsed (returned result) = completed elapsed result
raw_of elapsed (timed_out text) = broken elapsed text
raw_of elapsed (failed name text) = broken elapsed (name <> ": " <> text)

module _ (isolated : BatchJob → ℕ → Attempt) (direct : BatchJob → Attempt) where
  -- `_run_job`, for a job with its time limit, that took some time.
  unfoldable pub run_job : BatchJob → Option ℕ → ℕ → Raw
  run_job j none elapsed = raw_of elapsed (direct j)
  run_job j (some zero) elapsed = raw_of elapsed (direct j)
  run_job j (some (suc n)) elapsed = raw_of elapsed (isolated j (suc n))

  -- The job that is submitted, with the time limit of the batch.
  abbrev pub submitted : Option ℕ → BatchJob → ℕ → Raw
  submitted timeout j elapsed = run_job j (job_timeout timeout j) elapsed

-- What a future gives when it is done: the dict of its worker, or the text of an exception.
pub data Done : Type 0 where
  came_back : Raw → Done
  lost : String → Done

abbrev raw_done : Done → Raw
raw_done (came_back raw) = raw
raw_done (lost text) = broken 0 text

-- The first items of a list.
abbrev take : {A : Type 0} → ℕ → List A → List A
take zero xs = []
take (suc n) [] = []
take (suc n) (x ∷ xs) = x ∷ take n xs

abbrev strict_error : List String → Option String
strict_error errors = some ("strict-spec: " <> join "; " (take 3 errors))

module _ (check : Dict Value → Result (Bool × List String)) where
  -- A result under `strict_spec`.
  abbrev pub strict_result : BatchJob → ℕ → Dict Value → Bool × List String → BatchResult
  strict_result j wall result (fine, errors) = record {
    job = j;
    result = some result;
    error = if fine then none else strict_error errors;
    wall_clock = wall;
    success = if fine then truthy (get_or_null "success" result) else false;
  }

  abbrev pub batch_result : Bool → BatchJob → Raw → Result BatchResult
  batch_result strict_spec j (broken wall error) =
      ok (record { job = j; result = none; error = some error; wall_clock = wall; success = false })
  batch_result false j (completed wall result) = ok (record {
    job = j;
    result = some result;
    error = none;
    wall_clock = wall;
    success = truthy (get_or_null "success" result);
  })
  batch_result true j (completed wall result) = do
    report ← check result
    ok (strict_result j wall result report)

  -- The loop over the futures in the order in which they are done.
  unfoldable pub batch_results : Bool → List (BatchJob × Done) → Result (List BatchResult)
  batch_results strict_spec [] = ok []
  batch_results strict_spec ((j, done) ∷ rest) = do
    r ← batch_result strict_spec j (raw_done done)
    rs ← batch_results strict_spec rest
    ok (r ∷ rs)

-- `min(int(len(values) * pct / 100), len(values) - 1)`
abbrev pub index_of : ℕ → ℕ → ℕ
index_of pct len = if ltb (len * pct / 100) (len - 1) then len * pct / 100 else len - 1

-- `_percentile`, of times in milliseconds.
unfoldable pub percentile : List ℕ → ℕ → Option ℕ
percentile values pct = get_elem? (sort_by leb values) (index_of pct (length (sort_by leb values)))

pub record Summary : Type 0 where
  pub total : ℕ
  pub passed : ℕ
  pub failures : ℕ
  pub workers : Option ℕ
  pub p50 : Option ℕ
  pub p95 : Option ℕ

pub record Batch : Type 0 where
  pub is_ok : Bool
  pub results : List BatchResult
  pub summary : Summary

abbrev pub passed_count : List BatchResult → ℕ
passed_count rs = length (filter (λ r. r.success) rs)

abbrev pub wall_times : List BatchResult → List ℕ
wall_times rs = filter (λ t. ltb 0 t) (map (λ r. r.wall_clock) rs)

abbrev least : ℕ → ℕ → ℕ
least a b = if ltb b a then b else a

-- `workers or min(max(1, os.cpu_count() or 2), len(jobs), 8)`
abbrev pub worker_count : Option ℕ → ℕ → ℕ → ℕ
worker_count (some (suc n)) cpus jobs = suc n
worker_count _ cpus jobs = least (least (if ltb cpus 1 then 1 else cpus) jobs) 8

abbrev pub summary_of : ℕ → List BatchResult → Batch
summary_of n_workers rs = record {
  is_ok = eqb (length rs - passed_count rs) 0;
  results = rs;
  summary = record {
    total = length rs;
    passed = passed_count rs;
    failures = length rs - passed_count rs;
    workers = some n_workers;
    p50 = percentile (wall_times rs) 50;
    p95 = percentile (wall_times rs) 95;
  };
}

abbrev pub no_jobs : Batch
no_jobs = record {
  is_ok = true;
  results = [];
  summary = record { total = 0; passed = 0; failures = 0; workers = none; p50 = none; p95 = none };
}

-- `run_batch`, with its jobs and what came of each in the order in which they were done.
unfoldable pub run_batch :
    (Dict Value → Result (Bool × List String))
    → Bool
    → Option ℕ
    → ℕ
    → List (BatchJob × Done)
    → Result Batch
run_batch check strict_spec workers cpus [] = ok no_jobs
run_batch check strict_spec workers cpus (d ∷ done) = do
  rs ← batch_results check strict_spec (d ∷ done)
  ok (summary_of (worker_count workers cpus (length (d ∷ done))) rs)
