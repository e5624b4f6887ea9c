-- ===== src/Runner/Report.antt =====
-- `_result_payload` of agent_bench/runner/runner.py and `make_result` of
-- agent_bench/runner/results.py. Left out: the benchmark of reasoning and the metadata, which are
-- merged in afterwards.
pub mod Total
use tracecore.Prelude.{ℕ, suc, String, Option, none, some, List, [], ◌∷◌, map}
use tracecore.Prelude.Int.{ℤ, pos}
use tracecore.Prelude.Dict.{Dict, put}
use tracecore.Prelude.Text.{◌<>◌}
use tracecore.Value.{Value, null, bool, int, str, list, of_list, obj}
use tracecore.Exc.{Result, ok, ◌>>=◌}
use tracecore.Env.Guard.{Audit, fs, net}
use tracecore.Failures.{ensure_failure_type}
use tracecore.Runner.Model.{Entry, Outcome}

abbrev pub text_or_null : Option String → Value
text_or_null none = null
text_or_null (some s) = str s

abbrev audit_value : Audit → Value
audit_value (fs op path) = obj (("type", str "fs") ∷ ("op", str op) ∷ ("path", str path) ∷ [])
audit_value (net host) = obj (("type", str "net") ∷ ("host", str host) ∷ [])

-- An entry of `action_trace`, without its time stamp and its telemetry.
unfoldable pub entry_value : Entry → Value
entry_value e = obj (
    ("step", int e.step)
    ∷ ("observation", e.observation)
    ∷ ("action", e.action)
    ∷ ("result", e.result)
    ∷ ("io_audit", list (of_list (map audit_value e.io_audit)))
    ∷ ("llm_trace", e.llm_trace)
    ∷ (
      "budget_after_step",
      obj (("steps", int e.steps_after) ∷ ("tool_calls", int e.tool_calls_after) ∷ []),
    )
    ∷ (
      "budget_delta",
      obj (("steps", int (pos 1)) ∷ ("tool_calls", int (pos e.tool_calls_delta)) ∷ []),
    )
    ∷ [])

-- The arguments of `make_result`.
abbrev pub fields : String → ℤ → ℤ → Outcome → Dict Value
fields task_id version seed o =
    ("task_id", str task_id)
    ∷ ("version", int version)
    ∷ ("seed", int seed)
    ∷ ("success", bool o.success)
    ∷ ("termination_reason", str o.termination_reason)
    ∷ ("failure_reason", text_or_null o.failure_reason)
    ∷ ("failure_type", text_or_null o.failure_type)
    ∷ ("steps_used", int o.steps_used)
    ∷ ("tool_calls_used", int o.tool_calls_used)
    ∷ (
      "metrics",
      obj (("steps_used", int o.steps_used) ∷ ("tool_calls_used", int o.tool_calls_used) ∷ []),
    )
    ∷ ("action_trace", list (of_list (map entry_value o.action_trace)))
    ∷ []

-- `_result_payload`
unfoldable pub result_payload : String → ℤ → Value → ℤ → Outcome → Result (Dict Value)
unfolding entry_value ensure_failure_type
result_payload task_id version sandbox seed o = do
  result ← ensure_failure_type (fields task_id version seed o)
  ok (
      put "evidence_links" (obj (("bundle_dir", null) ∷ ("bundle_manifest", null) ∷ []))
        (put "sandbox" sandbox result))
