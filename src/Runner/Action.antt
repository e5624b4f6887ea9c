-- ===== src/Runner/Action.antt =====
-- `_validate_action` and the call's arguments, of agent_bench/runner/runner.py.
pub mod Callable
use tracecore.Prelude.{String, Option, none, some, List, [], ◌==◌, all, if◌then◌else◌}
use tracecore.Prelude.Dict.{Dict, get, contains}
use tracecore.Value.{Value, null, str, dict, get_or_null, as_dict, to_dict}

-- The parameters of each action, as `_action_schema` reads them off the task's module.
abbrev pub Schema : Type 0
Schema = Dict (List String)

-- The tests on the arguments, once the action's parameters are known.
abbrev pub check_args : List String → Value → Option String
check_args required null =
    if all (λ key. contains {V = Value} key []) required then none else some "missing_arg"
check_args required (dict f) =
    if all (λ key. contains key (to_dict f)) required then none else some "missing_arg"
check_args required other = some "args_must_be_dict"

abbrev pub check_schema : Option (List String) → Value → Option String
check_schema none args = some "unknown_action"
check_schema (some required) args = check_args required args

abbrev pub check_type : Value → Value → Schema → Option String
check_type (str t) args schema =
    if t == "" then some "invalid_action_type" else check_schema (get t schema) args
check_type other args schema = some "invalid_action_type"

abbrev pub check_dict : Option (Dict Value) → Schema → Option String
check_dict none schema = some "action_must_be_dict"
check_dict (some d) schema = check_type (get_or_null "type" d) (get_or_null "args" d) schema

-- `_validate_action`: the reason why the action is refused, if it is.
unfoldable pub validate_action : Value → Schema → Option String
unfolding as_dict get_or_null
validate_action action schema = check_dict (as_dict action) schema

-- `action["type"]`, of an action that was accepted.
unfoldable pub action_type : Value → String
unfolding get_or_null to_dict
action_type (dict f) = elim (get_or_null "type" (to_dict f)) [ str t ↦ t | _ ↦ "" ]
action_type _ = ""

-- `action.get("args", {}) or {}`
unfoldable pub action_args : Value → Dict Value
unfolding get_or_null to_dict
action_args (dict f) = elim (get_or_null "args" (to_dict f)) [ dict g ↦ to_dict g | _ ↦ [] ]
action_args _ = []
