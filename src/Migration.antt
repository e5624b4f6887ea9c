-- ===== src/Migration.antt =====
-- agent_bench/runner/migration.py: an artifact of an older version is brought up to date; and
-- `_stable_payload` and `_inject_artifact_hash` of agent_bench/runner/runner.py. The digest of a
-- payload is an argument.
pub mod Stages
pub mod Entries
pub mod Sound
pub mod Stable
pub mod Total
use tracecore.Prelude.{
  ℕ, suc, String, Bool, true, false, not, ◌||◌, ◌&&◌, is_empty, Option, none, some, List, [], ◌∷◌,
  ◌==◌, any, filter, if◌then◌else◌,
}
use tracecore.Prelude.Int.{pos}
use tracecore.Prelude.Dict.{Dict, get, put, contains}
use tracecore.Prelude.Text.{◌<>◌}
use tracecore.Value.{
  Value, null, bool, int, str, list, dict, Items, nil, cons, obj, of_list, to_list, to_dict,
  of_dict, truthy, get_or_null, as_list, is_null, or_else, set_defaults, dict_or_empty,
}
use tracecore.Value.Equality.{value_eq}
use tracecore.Failures.{classify_failure, validate_failure_type, checked_type, of_type}
use tracecore.Exc.{Result, ok, raised, ◌>>=◌, type_error, attribute_error, map_result}

abbrev pub spec_version : String
spec_version = "tracecore-spec-v1.0"

-- `_REQUIRED_TOP_LEVEL_DEFAULTS`
abbrev pub top_level_defaults : Dict Value
top_level_defaults =
    ("agent_ref", null)
    ∷ ("task_hash", str "unknown")
    ∷ ("runtime_identity", null)
    ∷ ("budgets", null)
    ∷ ("artifact_hash", null)
    ∷ ("validator", null)
    ∷ ("evidence_links", null)
    ∷ []

-- The artifact on its way, and whether it has changed.
abbrev pub Progress : Type 0
Progress = Dict Value × Bool

unfoldable pub set_value : Bool → String → Value → Progress → Progress
set_value b k v (d, changed) = if b then (put k v d, true) else (d, changed)

-- A value that is not equal to the one it should be is replaced.
abbrev pub settle : String → Value → Progress → Progress
settle k v p = set_value (not (value_eq (get_or_null k (p.0)) v)) k v p

unfoldable pub add_defaults : Dict Value → Progress → Progress
unfolding set_value
add_defaults [] p = p
add_defaults ((k, v) ∷ defaults) p =
    add_defaults defaults (set_value (not (contains k (p.0))) k v p)

-- `_normalize_runtime_identity`
abbrev pub runtime_identity : String → Dict Value → Dict Value
runtime_identity harness_version d =
    set_defaults
      (("name", str "tracecore")
        ∷ ("version", or_else (get_or_null "harness_version" d) (str harness_version))
        ∷ ("git_sha", null)
        ∷ [])
      (dict_or_empty (get_or_null "runtime_identity" d))

-- `int(v) if isinstance(v, int) else 0`
abbrev int_or_zero : Value → Value
int_or_zero (int n) = int n
int_or_zero (bool true) = int (pos 1)
int_or_zero _ = int (pos 0)

-- `_normalize_budgets`
abbrev pub budgets : Dict Value → Dict Value
budgets d =
    set_defaults
      (("steps", int_or_zero (get_or_null "steps_used" d))
        ∷ ("tool_calls", int_or_zero (get_or_null "tool_calls_used" d))
        ∷ [])
      (dict_or_empty (get_or_null "budgets" d))

-- `_normalize_evidence_links`
abbrev pub evidence_links : Dict Value → Dict Value
evidence_links d =
    set_defaults (("bundle_dir", null) ∷ ("bundle_manifest", null) ∷ [])
      (dict_or_empty (get_or_null "evidence_links" d))

abbrev no_budget : Value
no_budget = obj (("steps", int (pos 0)) ∷ ("tool_calls", int (pos 0)) ∷ [])

-- The defaults of the entry with a number, in an artifact with its start.
abbrev pub entry_defaults : Value → ℕ → Dict Value
entry_defaults started_at index =
    ("step", int (pos index))
    ∷ ("action_ts", started_at)
    ∷ ("observation", obj [])
    ∷ ("action", obj [])
    ∷ ("result", obj [])
    ∷ ("io_audit", list nil)
    ∷ ("budget_after_step", no_budget)
    ∷ ("budget_delta", no_budget)
    ∷ []

unfoldable pub trace_from : Value → ℕ → Items → Items
trace_from started_at index nil = nil
trace_from started_at index (cons raw rest) =
    cons (obj (set_defaults (entry_defaults started_at index) (dict_or_empty raw)))
      (trace_from started_at (suc index) rest)

-- `_normalize_action_trace`
abbrev pub trace_of : Value → Value → Value
trace_of started_at (list vs) = list (trace_from started_at 1 vs)
trace_of started_at _ = list nil

abbrev pub action_trace : Dict Value → Value
action_trace d = trace_of (get_or_null "started_at" d) (get_or_null "action_trace" d)

-- `_TERMINATION_TO_FAILURE.get(reason, fallback)`, where a list or a dict cannot be looked up.
abbrev pub classify_value : Value → Result String
classify_value (str reason) = ok (classify_failure reason)
classify_value (list vs) = raised (type_error "unhashable")
classify_value (dict f) = raised (type_error "unhashable")
classify_value _ = ok "logic_failure"

abbrev pub failure_of : Value → Value → Result (Option String)
failure_of failure_type reason =
    if truthy failure_type
    then checked_type failure_type
    else do t ← classify_value reason; validate_failure_type false (some t)

abbrev pub of_success : Progress → Progress
of_success p =
    let p1 = set_value (not (is_null (get_or_null "failure_type" (p.0)))) "failure_type" null p in
    let p2 =
      set_value (is_null (get_or_null "termination_reason" (p1.0))) "termination_reason"
        (str "success") p1 in
    set_value (not (is_null (get_or_null "failure_reason" (p2.0)))) "failure_reason" null p2

abbrev pub of_failure : Progress → Result Progress
of_failure p =
    let reason = or_else (get_or_null "termination_reason" (p.0)) (str "logic_failure") in
    let p1 = settle "termination_reason" reason p in
    do
      failure ← failure_of (get_or_null "failure_type" (p1.0)) reason
      let p2 = settle "failure_type" (of_type failure) p1
      ok (set_value (is_null (get_or_null "failure_reason" (p2.0))) "failure_reason" reason p2)

abbrev pub with_outcome : Progress → Result Progress
with_outcome p = if truthy (get_or_null "success" (p.0)) then ok (of_success p) else of_failure p

-- `_stable_payload`, of an artifact whose trace is a list of dicts.
abbrev pub volatile_fields : List String
volatile_fields =
    "run_id" ∷ "trace_id" ∷ "started_at" ∷ "completed_at" ∷ "wall_clock_elapsed_s" ∷ []

abbrev pub stable_entry : Value → Result Value
stable_entry (dict f) = ok (obj (filter (λ e. not (e.0 == "action_ts")) (to_dict f)))
stable_entry _ = raised (attribute_error "items")

abbrev pub stable_trace : Option (List Value) → Result Value
stable_trace none = raised (type_error "iterable")
stable_trace (some entries) = do
  stable ← map_result stable_entry entries
  ok (list (of_list stable))

abbrev pub scrubbed : Dict Value → Dict Value
scrubbed d = filter (λ e. not (any (λ k. (e.0) == k) volatile_fields)) d

abbrev pub stable_with : Dict Value → Option Value → Result (Dict Value)
stable_with d none = ok d
stable_with d (some trace) = do
  stable ← stable_trace (as_list trace)
  ok (put "action_trace" stable d)

unfoldable pub stable_payload : Dict Value → Result (Dict Value)
stable_payload d = stable_with (scrubbed d) (get "action_trace" (scrubbed d))

module _ (digest : Dict Value → String) where
  -- `_inject_artifact_hash`
  abbrev pub inject_artifact_hash : Dict Value → Result (Dict Value)
  inject_artifact_hash d = do
    stable ← stable_payload d
    ok (put "artifact_hash" (str ("sha256:" <> digest stable)) d)

  abbrev pub rehash : Progress → Result Progress
  rehash p = do d ← inject_artifact_hash (p.0); ok (d, true)

  abbrev pub with_hash : Progress → Result Progress
  with_hash p = if is_null (get_or_null "artifact_hash" (p.0)) || p.1 then rehash p else ok p

module _ (harness_version : String) where
  -- The steps before the outcome is looked at.
  abbrev with_identity : Progress → Progress
  with_identity p = settle "runtime_identity" (obj (runtime_identity harness_version (p.0))) p

  abbrev with_agent_ref : Progress → Progress
  with_agent_ref p =
      set_value (truthy (get_or_null "agent" (p.0)) && not (truthy (get_or_null "agent_ref" (p.0))))
        "agent_ref" (get_or_null "agent" (p.0)) p

  abbrev with_budgets : Progress → Progress
  with_budgets p = settle "budgets" (obj (budgets (p.0))) p

  abbrev with_links : Progress → Progress
  with_links p = settle "evidence_links" (obj (evidence_links (p.0))) p

  abbrev with_success : Progress → Progress
  with_success p =
      set_value (not (contains "success" (p.0))) "success"
        (bool (is_null (get_or_null "failure_type" (p.0)))) p

  unfoldable pub prepared : Dict Value → Progress
  unfolding add_defaults
  prepared payload = with_success (
      with_links (
        with_budgets (
          with_agent_ref (
            with_identity (
              settle "spec_version" (str spec_version)
                (add_defaults top_level_defaults (payload, false)))))))

abbrev pub with_trace : Progress → Progress
with_trace p = settle "action_trace" (action_trace (p.0)) p

-- `migrate_run_artifact`
unfoldable pub migrate_run_artifact : String → (Dict Value → String) → Dict Value → Result Progress
unfolding prepared
migrate_run_artifact harness_version digest payload = do
  p ← with_outcome (prepared harness_version payload)
  with_hash digest (with_trace p)

-- `migrate_run_directory`, on the artifacts of the directory in the order of their names: each path
-- with whether its artifact changed, how many did, and the paths of those that raised.
pub record Migrated : Type 0 where
  pub files : List (String × Bool)
  pub changed : ℕ
  pub errors : List String

module _ (harness_version : String) (digest : Dict Value → String) where
  abbrev pub note_file : String → Result Progress → Migrated → Migrated
  note_file path (ok (d, true)) m = record m {
    files = (path, true) ∷ m.files;
    changed = suc m.changed;
  }
  note_file path (ok (d, false)) m = record m { files = (path, false) ∷ m.files }
  note_file path (raised e) m = record m { errors = path ∷ m.errors }

  unfoldable pub migrate_run_directory : List (String × Dict Value) → Migrated
  migrate_run_directory [] = record { files = []; changed = 0; errors = [] }
  migrate_run_directory ((path, payload) ∷ rest) =
      note_file path (migrate_run_artifact harness_version digest payload)
        (migrate_run_directory rest)

abbrev pub is_ok : Migrated → Bool
is_ok m = is_empty m.errors
