-- ===== src/Tests/Artifacts.antt =====
-- Artifacts against the specification, and their migration.
use tracecore.Prelude.{refl, ◌≡◌, String, Option, none, some, List, [], ◌∷◌, true, false}
use tracecore.Prelude.Int.{pos}
use tracecore.Prelude.Dict.{Dict, get, put}
use tracecore.Prelude.Text.{starts_with}
use tracecore.Value.{
  Value, null, bool, int, str, list, dict, cons, nil, field, end, obj, of_list, as_dict, as_list,
  to_dict, to_list, get_or_null, truthy, set_defaults,
}
use tracecore.Value.Equality.{value_eq}
use tracecore.Exc.{ok, map_result}
use tracecore.Spec.{check_spec_compliance}
use tracecore.Spec.Compliance.{IsCompliant, check_spec_compliance_iff}
use tracecore.Migration.{Progress, migrate_run_artifact}
use tracecore.Migration.Total.{migrate_run_artifact-Returns}
use tracecore.Migration.Sound.{IsMigrated, migrate_run_artifact-IsMigrated}

abbrev pub text_of : Value → String
text_of v = ""

abbrev entry : Value
entry = obj (
    ("step", int (pos 1))
    ∷ ("action_ts", str "t")
    ∷ ("observation", obj [])
    ∷ ("action", obj [])
    ∷ ("result", obj [])
    ∷ ("io_audit", list (of_list []))
    ∷ ("budget_after_step", obj [])
    ∷ ("budget_delta", obj [])
    ∷ [])

abbrev pub artifact : Dict Value
artifact =
    ("spec_version", str "tracecore-spec-v1.0")
    ∷ ("runtime_identity", obj (("name", str "tracecore") ∷ ("version", str "1") ∷ []))
    ∷ ("run_id", str "r")
    ∷ ("trace_id", str "t")
    ∷ ("agent_ref", str "a")
    ∷ ("task_ref", str "d@1")
    ∷ ("task_hash", str "h")
    ∷ ("seed", int (pos 0))
    ∷ ("budgets", obj [])
    ∷ ("success", bool false)
    ∷ ("termination_reason", str "timeout")
    ∷ ("failure_type", str "timeout")
    ∷ ("steps_used", int (pos 1))
    ∷ ("tool_calls_used", int (pos 1))
    ∷ ("started_at", str "s")
    ∷ ("completed_at", str "c")
    ∷ ("wall_clock_elapsed_s", int (pos 1))
    ∷ ("harness_version", str "1")
    ∷ ("artifact_hash", str "sha256:0")
    ∷ ("action_trace", list (of_list (entry ∷ [])))
    ∷ ("validator", null)
    ∷ []

check_spec_compliance_iff_example : IsCompliant text_of (some []) artifact
unfolding check_spec_compliance get_or_null get tracecore.Spec.report_missing
    tracecore.Prelude.Sort.sort_by tracecore.Prelude.filter truthy starts_with to_dict value_eq
    as_list tracecore.Spec.trace_errors
check_spec_compliance_iff_example =
    (check_spec_compliance_iff text_of text_of "schema.json" (some []) artifact).0 refl

-- An artifact of an older version: a failure with no type, and a trace without its fields.
abbrev older : Dict Value
older =
    ("agent", str "a")
    ∷ ("success", bool false)
    ∷ ("termination_reason", str "steps_exhausted")
    ∷ ("action_trace", list (of_list (obj (("step", int (pos 1)) ∷ []) ∷ null ∷ [])))
    ∷ []

abbrev digest : Dict Value → String
digest d = "0"

abbrev brought_up : Progress
brought_up = (
  ("agent", str "a")
      ∷ ("success", bool false)
      ∷ ("termination_reason", str "steps_exhausted")
      ∷ (
        "action_trace",
        list (
            cons
              (dict (
                field "step" (int (pos 1)) (
                  field "action_ts" null (
                    field "observation" (dict end) (
                      field "action" (dict end) (
                        field "result" (dict end) (
                          field "io_audit" (list nil) (
                            field "budget_after_step"
                              (dict (
                                field "steps" (int (pos 0)) (field "tool_calls" (int (pos 0)) end)))
                              (field "budget_delta"
                                (dict (
                                  field "steps" (int (pos 0))
                                    (field "tool_calls" (int (pos 0)) end)))
                                end)))))))))
              (cons
                (dict (
                  field "step" (int (pos 2)) (
                    field "action_ts" null (
                      field "observation" (dict end) (
                        field "action" (dict end) (
                          field "result" (dict end) (
                            field "io_audit" (list nil) (
                              field "budget_after_step"
                                (dict (
                                  field "steps" (int (pos 0))
                                    (field "tool_calls" (int (pos 0)) end)))
                                (field "budget_delta"
                                  (dict (
                                    field "steps" (int (pos 0))
                                      (field "tool_calls" (int (pos 0)) end)))
                                  end)))))))))
                nil)),
      )
      ∷ ("agent_ref", str "a")
      ∷ ("task_hash", str "unknown")
      ∷ (
        "runtime_identity",
        dict
            (field "name" (str "tracecore") (field "version" (str "1") (field "git_sha" null end))),
      )
      ∷ ("budgets", dict (field "steps" (int (pos 0)) (field "tool_calls" (int (pos 0)) end)))
      ∷ ("artifact_hash", str "sha256:0")
      ∷ ("validator", null)
      ∷ ("evidence_links", dict (field "bundle_dir" null (field "bundle_manifest" null end)))
      ∷ ("spec_version", str "tracecore-spec-v1.0")
      ∷ ("failure_type", str "budget_exhausted")
      ∷ ("failure_reason", str "steps_exhausted")
      ∷ [],
  true,
)

migrate_run_artifact-IsMigrated_example : IsMigrated (brought_up.0)
unfolding migrate_run_artifact truthy get_or_null get value_eq put
    tracecore.Failures.validate_failure_type tracecore.Failures.classify_failure
    tracecore.Migration.trace_from set_defaults to_dict tracecore.Migration.stable_payload
    tracecore.Prelude.filter as_list map_result tracecore.Migration.add_defaults
    tracecore.Migration.prepared tracecore.Migration.set_value tracecore.Value.Equality.eq_int
    to_list
migrate_run_artifact-IsMigrated_example =
    migrate_run_artifact-IsMigrated "1" digest older brought_up refl

migrate_run_artifact-Returns_example :
    (q : Progress) × (migrate_run_artifact "1" digest older ≡ ok q)
unfolding get_or_null get truthy
migrate_run_artifact-Returns_example =
    migrate_run_artifact-Returns "1" digest older
      (record { failure_type = refl; termination_reason = tt })
