-- ===== src/Tests/Baselines.antt =====
-- Summaries and differences of small runs.
use tracecore.Prelude.{refl, List, [], ◌∷◌, true, false, All}
use tracecore.Prelude.Int.{pos}
use tracecore.Prelude.Dict.{Dict, get}
use tracecore.Value.{
  Value, bool, int, str, list, obj, of_list, to_dict, to_list, get_or_null, truthy,
}
use tracecore.Value.Equality.{IsValue}
use tracecore.Exc.{Result, ok, raised}
use tracecore.Baseline.Summary.{Row, summarize_runs}
use tracecore.Baseline.Buckets.{IsRow, summarize_runs-IsRow}

abbrev finished : Dict Value
finished =
    ("agent", str "a")
    ∷ ("task_ref", str "d@1")
    ∷ ("success", bool true)
    ∷ ("steps_used", int (pos 3))
    ∷ ("tool_calls_used", int (pos 2))
    ∷ []

abbrev failed : Dict Value
failed =
    ("agent", str "a")
    ∷ ("task_ref", str "d@1")
    ∷ ("success", bool false)
    ∷ ("steps_used", int (pos 9))
    ∷ ("tool_calls_used", int (pos 4))
    ∷ ("completed_at", str "2026")
    ∷ []

abbrev rows_of : Result (List Row) → List Row
rows_of (ok rows) = rows
rows_of (raised e) = []

summarize_runs-IsRow_example :
    All (IsRow (finished ∷ failed ∷ [])) (rows_of (summarize_runs (finished ∷ failed ∷ [])))
unfolding summarize_runs tracecore.Baseline.Summary.collect truthy get_or_null get
    tracecore.Value.as_str tracecore.Baseline.Summary.add_run
summarize_runs-IsRow_example =
    summarize_runs-IsRow (finished ∷ failed ∷ [])
      (rows_of (summarize_runs (finished ∷ failed ∷ []))) refl

abbrev access : Value
access = list (
    of_list (obj (("type", str "fs") ∷ ("op", str "read_file") ∷ ("path", str "/app/a") ∷ []) ∷ []))

abbrev traced : Dict Value
traced =
    ("action_trace", list (of_list (obj (("io_audit", access) ∷ ("action", obj []) ∷ []) ∷ [])))
    ∷ finished

well_formed : IsValue (obj traced)
unfolding IsValue
well_formed = (
  refl,
  ((refl, ((refl, tt, (refl, tt, (refl, tt, tt))), tt), (refl, tt, tt)), tt),
  (refl, tt, (refl, tt, (refl, tt, (refl, tt, (refl, tt, tt))))),
)
