-- ===== src/Runner/Validation.antt =====
-- What the runner makes of the dict that a task's validator returns, of
-- agent_bench/runner/runner.py.
use tracecore.Prelude.{String, true, false, Option, none, some, List, [], ◌∷◌, ◌==◌, if◌then◌else◌}
use tracecore.Prelude.Dict.{Dict, get, put, contains}
use tracecore.Prelude.Text.{strip}
use tracecore.Value.{Value, bool, str, get_or_null}
use tracecore.Failures.{in_taxonomy, classify_failure}

-- `_coerce_str`
unfoldable pub coerce_str : Value → Option String
coerce_str (str s) = let t = strip s in if t == "" then none else some t
coerce_str _ = none

abbrev pub snapshot_keys : List String
snapshot_keys =
    "ok" ∷ "terminal" ∷ "message" ∷ "error" ∷ "failure_reason" ∷ "failure_type"
    ∷ "termination_reason" ∷ []

-- The entries of a dict at some keys, in the order of the keys.
unfoldable pub select : List String → Dict Value → Dict Value
select [] d = []
select (k ∷ ks) d =
    let rest = select ks d in elim (get k d) [ none ↦ rest | some v ↦ (k, v) ∷ rest ]

abbrev non_empty : Dict Value → Option (Dict Value)
non_empty [] = none
non_empty (e ∷ d) = some (e ∷ d)

-- `_snapshot_validation`, of a dict
unfoldable pub snapshot_validation : Dict Value → Option (Dict Value)
unfolding select
snapshot_validation validation = non_empty (select snapshot_keys validation)

abbrev pub or_else : Option String → Option String → Option String
or_else none b = b
or_else (some a) b = some a

abbrev pub or_text : Option String → String → String
or_text none b = b
or_text (some a) b = a

pub record Terminal : Type 0 where
  pub failure_reason : String
  pub failure_type : String
  pub termination_reason : String
  pub snapshot : Dict Value

-- `d.setdefault(k, v)`
abbrev pub set_default : String → Value → Dict Value → Dict Value
set_default k v d = if contains k d then d else put k v d

-- The failure type that a terminal validation names, if it is in the taxonomy; else that of the
-- termination reason.
abbrev pub terminal_type : Option String → String → String
terminal_type none reason = classify_failure reason
terminal_type (some t) reason = if in_taxonomy t then t else classify_failure reason

-- `_normalize_terminal_validation`, of a dict
unfoldable pub normalize_terminal_validation : Dict Value → Terminal
unfolding coerce_str select classify_failure
normalize_terminal_validation validation =
    let field = λ (k : String). coerce_str (get_or_null k validation) in
    let failure_reason : String =
      or_text (or_else (field "failure_reason") (or_else (field "message") (field "error")))
        "logic_failure" in
    let termination_reason : String = or_text (field "termination_reason") "logic_failure" in
    let failure_type : String = terminal_type (field "failure_type") termination_reason in
    let defaults : Dict Value =
      set_default "terminal" (bool true)
        (set_default "ok" (bool false) (select snapshot_keys validation)) in
    record {
      failure_reason = failure_reason;
      failure_type = failure_type;
      termination_reason = termination_reason;
      snapshot = put "termination_reason" (str termination_reason) (
          put "failure_type" (str failure_type)
            (put "failure_reason" (str failure_reason) defaults));
    }
