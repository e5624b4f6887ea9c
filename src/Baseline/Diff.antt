-- ===== src/Baseline/Diff.antt =====
-- `diff_runs`, on runs whose traces are there as lists. Wall-clock times are left out.
use tracecore.Prelude.{
  ℕ, suc, ◌+◌, String, Bool, true, false, not, ◌||◌, Option, none, some, List, [], ◌∷◌, ◌==◌, any,
  filter, length, if◌then◌else◌,
}
use tracecore.Prelude.Int.{ℤ, pos, ◌-ℤ◌}
use tracecore.Prelude.Dict.{Dict}
use tracecore.Value.{
  Value, null, bool, int, list, dict, obj, to_list, to_dict, truthy, get_or_null, is_null,
}
use tracecore.Value.Equality.{value_eq}
use tracecore.Exc.{Result, ok, raised, ◌>>=◌, type_error, attribute_error, map_result}
use tracecore.Baseline.Audit.{IoDelta, io_audit_diff}

-- `_TRACE_VOLATILE_KEYS`
abbrev volatile_keys : List String
volatile_keys = "action_ts" ∷ "budget_after_step" ∷ "budget_delta" ∷ "io_audit" ∷ "telemetry" ∷ []

-- `_normalize_trace_entry`
unfoldable pub normalize_trace_entry : Option (Dict Value) → Option (Dict Value)
normalize_trace_entry none = none
normalize_trace_entry (some entry) =
    some (filter (λ e. not (any (λ k. (e.0) == k) volatile_keys || is_null (e.1))) entry)

-- The entry of a trace: a dict or `None`. What is neither has no `items`.
abbrev pub entry_of : Value → Result (Option (Dict Value))
entry_of null = ok none
entry_of (dict f) = ok (some (to_dict f))
entry_of _ = raised (attribute_error "items")

-- `run.get("action_trace") or []`
abbrev pub trace_entries : Value → Result (List (Option (Dict Value)))
trace_entries (list vs) = map_result entry_of (to_list vs)
trace_entries v = if truthy v then raised (type_error "action_trace") else ok []

-- `(raw or {}).get("io_audit") if raw else None`
abbrev pub audit_of : Option (Dict Value) → Value
audit_of none = null
audit_of (some d) = get_or_null "io_audit" d

-- `entry_a != entry_b`
abbrev pub same_entry : Option (Dict Value) → Option (Dict Value) → Bool
same_entry none none = true
same_entry (some d) (some e) = value_eq (obj d) (obj e)
same_entry _ _ = false

pub record StepDiff : Type 0 where
  pub step : ℕ
  pub run_a : Option (Dict Value)
  pub run_b : Option (Dict Value)
  pub io_audit_delta : Option IoDelta

-- The step diffs, and the counts of the entries that were added and removed.
pub record Steps : Type 0 where
  pub diffs : List StepDiff
  pub added : ℕ
  pub removed : ℕ

abbrev pub no_steps : Steps
no_steps = record { diffs = []; added = 0; removed = 0 }

abbrev pub add_diff : ℕ → Option (Dict Value) → Option (Dict Value) → Option IoDelta → Steps → Steps
add_diff step a b none s = if same_entry a b then s else record s {
  diffs = record { step = step; run_a = a; run_b = b; io_audit_delta = none } ∷ s.diffs;
}
add_diff step a b (some delta) s = record {
  diffs = record { step = step; run_a = a; run_b = b; io_audit_delta = some delta } ∷ s.diffs;
  added = s.added + length delta.added;
  removed = s.removed + length delta.removed;
}

abbrev pub diff_step : ℕ → Option (Dict Value) → Option (Dict Value) → Steps → Result Steps
diff_step step raw_a raw_b s = do
  delta ← io_audit_diff (audit_of raw_a) (audit_of raw_b)
  ok (add_diff step (normalize_trace_entry raw_a) (normalize_trace_entry raw_b) delta s)

-- The loop up to the length of the longer trace; the shorter has no entry there.
unfoldable pub diff_steps :
    ℕ → List (Option (Dict Value)) → List (Option (Dict Value)) → Result Steps
diff_steps step [] [] = ok no_steps
diff_steps step (a ∷ as') [] = do s ← diff_steps (suc step) as' []; diff_step step a none s
diff_steps step [] (b ∷ bs) = do s ← diff_steps (suc step) [] bs; diff_step step none b s
diff_steps step (a ∷ as') (b ∷ bs) = do s ← diff_steps (suc step) as' bs; diff_step step a b s

abbrev pub int_value : Value → Result ℤ
int_value (int n) = ok n
int_value (bool true) = ok (pos 1)
int_value v = if truthy v then raised (type_error "tool_calls_used") else ok (pos 0)

-- `_run_summary`
abbrev pub run_summary : Dict Value → Dict Value
run_summary run =
    ("run_id", get_or_null "run_id" run)
    ∷ ("agent", get_or_null "agent" run)
    ∷ ("task_ref", get_or_null "task_ref" run)
    ∷ ("success", bool (truthy (get_or_null "success" run)))
    ∷ ("failure_type", get_or_null "failure_type" run)
    ∷ ("termination_reason", get_or_null "termination_reason" run)
    ∷ ("steps_used", get_or_null "steps_used" run)
    ∷ ("tool_calls_used", get_or_null "tool_calls_used" run)
    ∷ ("seed", get_or_null "seed" run)
    ∷ []

pub record RunDiff : Type 0 where
  pub run_a : Dict Value
  pub run_b : Dict Value
  pub same_agent : Bool
  pub same_task : Bool
  pub same_success : Bool
  pub same_failure_type : Bool
  pub same_termination_reason : Bool
  pub steps_a : ℕ
  pub steps_b : ℕ
  pub steps_delta : ℤ
  pub tool_calls_delta : ℤ
  pub steps : Steps

abbrev pub same_at : String → Dict Value → Dict Value → Bool
same_at k a b = value_eq (get_or_null k a) (get_or_null k b)

abbrev pub same_truth : Bool → Bool → Bool
same_truth true b = b
same_truth false b = not b

unfoldable pub diff_runs : Dict Value → Dict Value → Result RunDiff
unfolding diff_steps
diff_runs run_a run_b = do
  trace_a ← trace_entries (get_or_null "action_trace" run_a)
  trace_b ← trace_entries (get_or_null "action_trace" run_b)
  steps ← diff_steps 1 trace_a trace_b
  calls_b ← int_value (get_or_null "tool_calls_used" run_b)
  calls_a ← int_value (get_or_null "tool_calls_used" run_a)
  ok (record {
    run_a = run_summary run_a;
    run_b = run_summary run_b;
    same_agent = same_at "agent" run_a run_b;
    same_task = same_at "task_ref" run_a run_b;
    same_success =
        same_truth (truthy (get_or_null "success" run_a)) (truthy (get_or_null "success" run_b));
    same_failure_type = same_at "failure_type" run_a run_b;
    same_termination_reason = same_at "termination_reason" run_a run_b;
    steps_a = length trace_a;
    steps_b = length trace_b;
    steps_delta = pos (length trace_b) -ℤ pos (length trace_a);
    tool_calls_delta = calls_b -ℤ calls_a;
    steps = steps;
  })
