-- ===== src/Tests/Replays.antt =====
-- Two runs of one step, compared.
use tracecore.Replay.Audit.Allowed.{IsAllowed, check_entries_iff}
use tracecore.Prelude.{All, refl, true, some, none, List, [], ◌∷◌}
use tracecore.Prelude.Int.{pos}
use tracecore.Prelude.Dict.{Dict, get}
use tracecore.Prelude.Text.{starts_with, is_infix, strip, before, has_char, lower, ends_with}
use tracecore.Env.Network.{check, extract_host, match_entry}
use tracecore.Value.{Value, bool, str, list, obj, of_list, get_or_null, to_dict, to_list}
use tracecore.Value.Equality.{value_eq}
use tracecore.Env.Path.{under_root}
use tracecore.Replay.Audit.{audit_allowed, check_entries}
use tracecore.Replay.Compare.{
  Artifact, record_sides, replay_sides, compare_step, validate_sandbox, check_record, check_replay,
  check_strict,
}
use tracecore.Replay.Compare.Agreement.{IsAgreement, check_record_iff}
use tracecore.Replay.Compare.Strict.{IsNotOver, check_replay_iff, check_strict_iff}

abbrev step : Dict Value
step =
    ("action", obj (("type", str "read_file") ∷ []))
    ∷ ("result", obj (("ok", bool true) ∷ []))
    ∷ (
      "io_audit",
      list (
          of_list (
            obj (("type", str "fs") ∷ ("op", str "read_file") ∷ ("path", str "/app/a.txt") ∷ [])
            ∷ [])),
    )
    ∷ []

abbrev finished : Artifact
finished = record {
  fields =
      ("success", bool true)
      ∷ ("termination_reason", str "success")
      ∷ (
        "sandbox",
        obj (
            ("filesystem_roots", list (of_list (str "/app" ∷ [])))
            ∷ ("network_hosts", list (of_list []))
            ∷ []),
      )
      ∷ [];
  action_trace = step ∷ [];
  steps_used = some (pos 1);
  tool_calls_used = none;
}

check_record_iff_example : IsAgreement (record_sides finished finished) finished finished
unfolding check_record value_eq get validate_sandbox get_or_null to_dict compare_step audit_allowed
    to_list under_root starts_with
check_record_iff_example = (check_record_iff finished finished).0 refl

check_replay_iff_example : IsAgreement (replay_sides finished) finished finished
unfolding check_replay value_eq get validate_sandbox get_or_null to_dict compare_step audit_allowed
    to_list under_root starts_with
check_replay_iff_example = (check_replay_iff finished finished).0 refl

check_strict_iff_example :
    IsAgreement (replay_sides finished) finished finished
    × IsNotOver (some (pos 1)) (some (pos 1))
    × IsNotOver none none
unfolding check_strict value_eq get validate_sandbox get_or_null to_dict compare_step audit_allowed
    to_list under_root starts_with
check_strict_iff_example = (check_strict_iff finished finished).0 refl

abbrev entries : List Value
entries =
    obj (("type", str "fs") ∷ ("op", str "read_file") ∷ ("path", str "/app/a.txt") ∷ [])
    ∷ obj (("type", str "net") ∷ ("host", str "api.example.com") ∷ [])
    ∷ []

check_entries_iff_example :
    All (λ v. IsAllowed (to_list (of_list (str "/app" ∷ []))) ("*.example.com" ∷ []) v) entries
unfolding check_entries value_eq get_or_null get to_dict to_list under_root starts_with check
    extract_host is_infix strip before has_char lower match_entry ends_with
check_entries_iff_example =
    (check_entries_iff (of_list (str "/app" ∷ [])) ("*.example.com" ∷ []) "run" 1 entries).0 refl
