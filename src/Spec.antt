-- ===== src/Spec.antt =====
-- agent_bench/runner/spec_check.py: an artifact against the specification. What the schema validator
-- says, and the texts of values, are arguments.
pub mod Parts
pub mod Compliance
use tracecore.Prelude.{
  ℕ, suc, ◌+◌, String, Bool, true, false, not, ◌&&◌, ◌||◌, Option, none, some, List, [], ◌∷◌, ◌++◌,
  ◌==◌, any, filter, is_empty, map, if◌then◌else◌,
}
use tracecore.Prelude.Dict.{Dict, contains}
use tracecore.Prelude.Text.{◌<>◌, join, of_nat, starts_with, is_infix}
use tracecore.Prelude.Sort.{sorted}
use tracecore.Value.{
  Value, null, str, list, dict, truthy, get_or_null, to_dict, as_dict, as_list, to_text,
}
use tracecore.Value.Equality.{value_eq}
use tracecore.Exc.{Result, ok, raised, ◌>>=◌, type_error}

-- `_CANONICAL_FAILURE_TYPES`
abbrev canonical_failure_types : List String
canonical_failure_types =
    "budget_exhausted" ∷ "invalid_action" ∷ "sandbox_violation" ∷ "logic_failure" ∷ "timeout"
    ∷ "non_termination" ∷ []

abbrev taxonomy_text : String
taxonomy_text = join ", " (sorted canonical_failure_types)

-- `_REQUIRED_SPEC_FIELDS`
abbrev pub required_spec_fields : List String
required_spec_fields =
    "spec_version" ∷ "runtime_identity" ∷ "run_id" ∷ "trace_id" ∷ "agent_ref" ∷ "task_ref"
    ∷ "task_hash" ∷ "seed" ∷ "budgets" ∷ "success" ∷ "termination_reason" ∷ "failure_type"
    ∷ "steps_used" ∷ "tool_calls_used" ∷ "started_at" ∷ "completed_at" ∷ "wall_clock_elapsed_s"
    ∷ "harness_version" ∷ "artifact_hash" ∷ "action_trace" ∷ "validator" ∷ []

-- `_TRACE_ENTRY_REQUIRED`
abbrev pub trace_entry_required : List String
trace_entry_required =
    "step" ∷ "action_ts" ∷ "observation" ∷ "action" ∷ "result" ∷ "io_audit" ∷ "budget_after_step"
    ∷ "budget_delta" ∷ []

-- The schema that was found, with the messages of the validator, or none.
abbrev schema_errors : String → Option (List String) → List String
schema_errors path none = ("spec: cannot load schema from " <> path) ∷ []
schema_errors path (some messages) = messages

-- `sorted(required - d.keys())`
abbrev pub missing : List String → Dict Value → List String
missing required d = sorted (filter (λ k. not (contains k d)) required)

-- Whether an error names the field already.
abbrev mentioned : String → List String → Bool
mentioned key errors =
    any (λ e. is_infix ("-> " <> key <> ":") e || is_infix ("'" <> key <> "'") e) errors

unfoldable pub report_missing : List String → List String → List String
report_missing errors [] = errors
report_missing errors (key ∷ keys) =
    report_missing
      (if not (mentioned key errors)
        then errors ++ ("spec: required field missing: " <> key) ∷ []
        else errors)
      keys

-- An error under a condition.
abbrev pub error_if : Bool → String → List String
error_if b e = if b then e ∷ [] else []

unfoldable pub trace_errors : ℕ → List Value → List String
unfolding as_dict
trace_errors idx [] = []
trace_errors idx (entry ∷ entries) =
    elim (as_dict entry) [
      | none ↦ ("spec: action_trace[" <> of_nat idx <> "] is not an object") ∷ []
      | some d ↦
          map (λ f. "spec: action_trace[" <> of_nat idx <> "] missing field: " <> f)
            (missing trace_entry_required d)
    ]
    ++ trace_errors (suc idx) entries

-- `action_trace`, when it is a list.
abbrev pub list_errors : Option (List Value) → List String
list_errors none = []
list_errors (some entries) = trace_errors 1 entries

abbrev pub identity_errors : Value → List String
identity_errors null = []
identity_errors (dict f) =
    map (λ sub. "spec: runtime_identity." <> sub <> " is missing or empty")
      (filter (λ sub. not (truthy (get_or_null sub (to_dict f)))) ("name" ∷ "version" ∷ []))
identity_errors _ = "spec: runtime_identity must be an object" ∷ []

module _ (text_of repr : Value → String) where
  abbrev pub version_errors : Value → List String
  version_errors v =
      error_if (truthy v && not (starts_with (to_text text_of v) "tracecore-spec-v"))
        ("spec: spec_version must match pattern 'tracecore-spec-v<major>.<minor>'; got " <> repr v)

  abbrev pub hash_errors : Value → List String
  hash_errors null = []
  hash_errors v =
      error_if (not (starts_with (to_text text_of v) "sha256:"))
        ("spec: artifact_hash must begin with 'sha256:'; got " <> repr v)

  -- A list or a dict cannot be looked up in a set.
  abbrev pub failure_errors : Value → Result (List String)
  failure_errors null = ok []
  failure_errors (list vs) = raised (type_error "unhashable")
  failure_errors (dict f) = raised (type_error "unhashable")
  failure_errors (str t) = ok (
      error_if (not (any (λ f. t == f) canonical_failure_types)) (
        "spec: failure_type "
        <> repr (str t)
        <> " is not in canonical taxonomy ("
        <> taxonomy_text
        <> ")"))
  failure_errors v = ok (
      ("spec: failure_type " <> repr v <> " is not in canonical taxonomy (" <> taxonomy_text <> ")")
      ∷ [])

  -- The errors in the order of the checks, given those of the failure type.
  unfoldable pub all_errors : String → Option (List String) → Dict Value → List String → List String
  all_errors path schema d failure =
      report_missing (schema_errors path schema) (missing required_spec_fields d)
      ++ version_errors (get_or_null "spec_version" d)
      ++ identity_errors (get_or_null "runtime_identity" d)
      ++ hash_errors (get_or_null "artifact_hash" d)
      ++ error_if (value_eq (get_or_null "task_hash" d) (str ""))
          "spec: task_hash must not be empty"
      ++ failure
      ++ list_errors (as_list (get_or_null "action_trace" d))

  -- The report has `ok` and the errors.
  unfoldable pub check_spec_compliance :
      String → Option (List String) → Dict Value → Result (Bool × List String)
  unfolding all_errors
  check_spec_compliance path schema d = do
    failure ← failure_errors (get_or_null "failure_type" d)
    ok (is_empty (all_errors path schema d failure), all_errors path schema d failure)
