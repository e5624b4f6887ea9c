-- ===== src/Failures.antt =====
-- agent_bench/runner/failures.py and results.py: the taxonomy of failures. Reasons and types are
-- texts, as in the source, since validators supply them.
pub mod Taxonomy
use tracecore.Prelude.{
  String, Bool, true, false, Option, none, some, List, [], ◌∷◌, ◌==◌, if◌then◌else◌, any,
}
use tracecore.Prelude.Dict.{Dict, get, put}
use tracecore.Value.{Value, Items, Fields, null, str, list, dict, truthy, get_or_null}
use tracecore.Exc.{Result, ok, raised, ◌>>=◌, value_error, type_error}

abbrev pub failure_types : List String
failure_types =
    "budget_exhausted" ∷ "invalid_action" ∷ "sandbox_violation" ∷ "logic_failure" ∷ "timeout"
    ∷ "non_termination" ∷ []

-- `_TERMINATION_TO_FAILURE`
abbrev pub termination_to_failure : Dict String
termination_to_failure =
    ("timeout", "timeout")
    ∷ ("steps_exhausted", "budget_exhausted")
    ∷ ("tool_calls_exhausted", "budget_exhausted")
    ∷ ("invalid_action", "invalid_action")
    ∷ ("action_exception", "invalid_action")
    ∷ ("sandbox_violation", "sandbox_violation")
    ∷ ("non_termination", "non_termination")
    ∷ ("logic_failure", "logic_failure")
    ∷ []

-- `failure_type in FAILURE_TYPES`
abbrev pub in_taxonomy : String → Bool
in_taxonomy t = any (λ f. t == f) failure_types

-- `validate_failure_type`
unfoldable pub validate_failure_type : Bool → Option String → Result (Option String)
validate_failure_type true failure_type = ok none
validate_failure_type false none = raised (value_error "failure_type")
validate_failure_type false (some t) =
    if in_taxonomy t then ok (some t) else raised (value_error "failure_type")

-- `classify_failure`, with its default fallback
unfoldable pub classify_failure : String → String
classify_failure reason = elim (get reason termination_to_failure) [
  | none ↦ "logic_failure"
  | some t ↦ t
]

-- `payload.get("termination_reason") or ""`, as a key of the table. A reason that is no text has no
-- entry there, as the empty text has none; a list or a dict that is not empty is no key.
abbrev reason_of : Value → Result String
reason_of (str s) = ok s
reason_of (list (Items.cons v vs)) = raised (type_error "unhashable type")
reason_of (dict (Fields.field k v f)) = raised (type_error "unhashable type")
reason_of _ = ok ""

abbrev pub of_type : Option String → Value
of_type none = null
of_type (some t) = str t

-- `ensure_failure_type`. A failure type that is there and no text is not in the taxonomy.
abbrev pub checked_type : Value → Result (Option String)
checked_type (str t) = validate_failure_type false (some t)
checked_type other = validate_failure_type false none

-- The failure type of a run that did not succeed: its own, or that of its termination reason.
resolve_type : Dict Value → Result (Option String)
unfolding validate_failure_type
resolve_type payload =
    if truthy (get_or_null "failure_type" payload)
    then checked_type (get_or_null "failure_type" payload)
    else (do
      reason ← reason_of (get_or_null "termination_reason" payload)
      validate_failure_type false (some (classify_failure reason)))

unfoldable pub ensure_failure_type : Dict Value → Result (Dict Value)
unfolding resolve_type
ensure_failure_type payload =
    if truthy (get_or_null "success" payload) then ok (put "failure_type" null payload) else do
      failure_type ← resolve_type payload
      ok (put "failure_type" (of_type failure_type) payload)
