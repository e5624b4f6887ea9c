-- ===== src/Replay/Compare.antt =====
-- `check_record`, `check_replay` and `check_strict` of agent_bench/runner/replay.py. The trace of a
-- run and its two counts are taken out of its dict, as the list of dicts and the numbers that the
-- artifact's schema says they are; reading a bundle from disk is left out.
pub mod Steps
pub mod Agreement
pub mod Strict
use tracecore.Prelude.{
  ℕ, suc, String, Bool, true, false, ◌&&◌, Option, none, some, List, [], ◌∷◌, ◌++◌, ◌==◌, length,
  eqb, if◌then◌else◌,
}
use tracecore.Prelude.Int.{ℤ, ltb_ℤ}
use tracecore.Prelude.Dict.{Dict, get, contains}
use tracecore.Value.{
  get_or, Value, Items, null, str, list, dict, nil, obj, truthy, get_or_null, to_dict,
}
use tracecore.Value.Equality.{value_eq}
use tracecore.Exc.{Exc, Result, ok, raised, ◌>>=◌, sandbox_violation, type_error}
use tracecore.Env.Path.{under_root}
use tracecore.Env.Network
use tracecore.Env.Network.{NetworkGuard, normalize_host}
use tracecore.Runner.Model.{iterate}
use tracecore.Replay.Audit.{
  Divergence, sandbox_missing, sandbox_lists, sandbox_differs, field_differs, step_count,
  audit_missing, action_differs, result_differs, audit_differs, exceeded, unless, audit_allowed,
}

-- A run: its dict, and what is read out of it.
pub record Artifact : Type 0 where
  pub fields : Dict Value
  pub action_trace : List (Dict Value)
  pub steps_used : Option ℤ
  pub tool_calls_used : Option ℤ

abbrev pub same_at : String → Value → Dict Value → Dict Value → Bool
same_at k default a b = value_eq (get_or k default a) (get_or k default b)

-- `_compare_step`
unfoldable pub compare_step : Dict Value → Dict Value → ℕ → List Divergence
compare_step a b n =
    unless (same_at "action" (obj []) a b) (action_differs n)
    ++ unless (same_at "result" null a b) (result_differs n)
    ++ unless (same_at "io_audit" (list nil) a b) (audit_differs n)

abbrev pub is_list : Value → Bool
is_list (list vs) = true
is_list _ = false

-- `_validate_sandbox`
unfoldable pub validate_sandbox : Value → String → List Divergence
validate_sandbox (dict f) label =
    unless
      (is_list (get_or_null "filesystem_roots" (to_dict f))
        && is_list (get_or_null "network_hosts" (to_dict f)))
      (sandbox_lists label)
validate_sandbox _ label = sandbox_missing label ∷ []

-- The labels and the sandboxes of the two runs.
pub record Sides : Type 0 where
  pub first : String
  pub second : String
  pub first_sandbox : Value
  pub second_sandbox : Value

abbrev pub audits : Sides → ℕ → Dict Value → Dict Value → Result (List Divergence)
audits s n a b = do
  es ← audit_allowed (get_or "io_audit" (list nil) a) s.first_sandbox s.first n
  fs ← audit_allowed (get_or "io_audit" (list nil) b) s.second_sandbox s.second n
  ok (es ++ fs)

-- The audits are looked at while there is no error.
abbrev pub then_audits :
    Sides → ℕ → Dict Value → Dict Value → List Divergence → Result (List Divergence)
then_audits s n a b [] = audits s n a b
then_audits s n a b (e ∷ es) = ok (e ∷ es)

-- The errors of one step before the audits are looked at.
abbrev pub step_errors : Sides → ℕ → Dict Value → Dict Value → List Divergence
step_errors s n a b =
    unless (contains "io_audit" a) (audit_missing s.first n)
    ++ unless (contains "io_audit" b) (audit_missing s.second n)
    ++ compare_step a b n

-- The loop over the two traces, with the errors so far.
unfoldable pub compare_steps :
    Sides → ℕ → List Divergence → List (Dict Value) → List (Dict Value) → Result (List Divergence)
compare_steps s n errors (a ∷ as') (b ∷ bs) = do
  errors' ← then_audits s n a b (errors ++ step_errors s n a b)
  compare_steps s (suc n) errors' as' bs
compare_steps s n errors _ _ = ok errors

abbrev pub same_fields : Dict Value → Dict Value → List Divergence
same_fields a b =
    unless (same_at "success" null a b) (field_differs "success")
    ++ unless (same_at "termination_reason" null a b) (field_differs "termination_reason")
    ++ unless (same_at "failure_type" null a b) (field_differs "failure_type")

-- The sandboxes are compared while there is no error.
abbrev pub then_sandbox : Value → Value → List Divergence → List Divergence
then_sandbox v w [] = unless (value_eq v w) sandbox_differs
then_sandbox v w (e ∷ es) = e ∷ es

abbrev pub sandbox_of : Artifact → Value
sandbox_of a = get_or_null "sandbox" a.fields

abbrev pub counts : Artifact → Artifact → List Divergence
counts a b =
    let m = length a.action_trace in
    let n = length b.action_trace in unless (eqb m n) (step_count m n)

-- The errors that `check_record` has found before it goes through the traces.
abbrev pub record_errors : Artifact → Artifact → List Divergence
record_errors a b =
    then_sandbox (sandbox_of a) (sandbox_of b) (
      same_fields a.fields b.fields
      ++ validate_sandbox (sandbox_of a) "run1"
      ++ validate_sandbox (sandbox_of b) "run2")
    ++ counts a b

abbrev pub record_sides : Artifact → Artifact → Sides
record_sides a b = record {
  first = "run1";
  second = "run2";
  first_sandbox = get_or "sandbox" (obj []) a.fields;
  second_sandbox = get_or "sandbox" (obj []) b.fields;
}

-- `check_record`: the list of errors, empty when the report is ok.
unfoldable pub check_record : Artifact → Artifact → Result (List Divergence)
unfolding compare_steps
check_record a b =
    compare_steps (record_sides a b) 1 (record_errors a b) a.action_trace b.action_trace

abbrev pub replay_sides : Artifact → Sides
replay_sides manifest = record {
  first = "baseline";
  second = "run";
  first_sandbox = get_or "sandbox" (obj []) manifest.fields;
  second_sandbox = get_or "sandbox" (obj []) manifest.fields;
}

-- The errors that `check_replay` has found before it goes through the traces.
abbrev pub replay_errors : Artifact → Artifact → List Divergence
replay_errors manifest fresh =
    then_sandbox (sandbox_of manifest) (sandbox_of fresh) (
      validate_sandbox (sandbox_of manifest) "manifest"
      ++ validate_sandbox (sandbox_of fresh) "run")
    ++ same_fields manifest.fields fresh.fields
    ++ counts manifest fresh

-- `check_replay`, of the manifest with the trace of its bundle and a fresh run.
unfoldable pub check_replay : Artifact → Artifact → Result (List Divergence)
unfolding compare_steps
check_replay manifest fresh =
    compare_steps (replay_sides manifest) 1 (replay_errors manifest fresh) manifest.action_trace
      fresh.action_trace

-- Whether the fresh count is over the baseline's, when both are there.
abbrev pub over : Option ℤ → Option ℤ → Bool
over none f = false
over (some b) none = false
over (some b) (some f) = ltb_ℤ b f

abbrev pub unless_over : Option ℤ → Option ℤ → String → List Divergence
unless_over b f key = if over b f then exceeded key ∷ [] else []

-- `check_strict`
unfoldable pub check_strict : Artifact → Artifact → Result (List Divergence)
unfolding check_replay
check_strict manifest fresh = do
  errors ← check_replay manifest fresh
  ok (
      errors
      ++ unless_over manifest.steps_used fresh.steps_used "steps_used"
      ++ unless_over manifest.tool_calls_used fresh.tool_calls_used "tool_calls_used")
