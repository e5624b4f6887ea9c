-- ===== src/Runner/Loop/Justified.antt =====
-- What a result of the runner says of the validator, and of its failure.
use tracecore.Prelude.{
  ◌≡◌, refl, ◌<◌, String, Bool-cases, true, false, Option, none, some, List, length, inl, inr, ◌⊎◌,
}
use tracecore.Prelude.Int.{ℤ}
use tracecore.Prelude.Dict.{Dict}
use tracecore.Value.{Value, truthy, get_or_null}
use tracecore.Exc.{ok}
use tracecore.Env.Guard.{Guarded}
use tracecore.Failures.{in_taxonomy}
use tracecore.Failures.Taxonomy.{classify_failure-in_taxonomy}
use tracecore.Runner.Validation.{
  terminal_type, or_text, coerce_str, snapshot_validation, normalize_terminal_validation,
}
use tracecore.Runner.Model.{Task, Entry, Outcome, fail}

-- The validator was asked, after at least one step, and accepted.
pub record IsAccepted {H : Type 0} (task : Task H) (o : Outcome) : Type 0 where
  pub before : Guarded H
  pub after : Guarded H
  pub validation : Dict Value
  pub asked : task.validate before ≡ (ok validation, after)
  pub approved : truthy (get_or_null "ok" validation) ≡ true
  pub reported : o.validator ≡ snapshot_validation validation
  pub some_step : 0 < length o.action_trace
  pub termination : o.termination_reason ≡ "success"
  pub no_reason : o.failure_reason ≡ none
  pub no_type : o.failure_type ≡ none

-- There is a reason, and a type of the taxonomy.
pub record IsFailed (o : Outcome) : Type 0 where
  pub reason : (r : String) × (o.failure_reason ≡ some r)
  pub kind : (t : String) × (o.failure_type ≡ some t) × (in_taxonomy t ≡ true)

abbrev pub IsJustified : {H : Type 0} → Task H → Outcome → Type 0
IsJustified task o = ((o.success ≡ true) × IsAccepted task o) ⊎ ((o.success ≡ false) × IsFailed o)

pub failed :
    {H : Type 0} (task : Task H) (termination reason kind : String) (steps tools : ℤ)
    (trace : List Entry)
    → in_taxonomy kind ≡ true
    → IsJustified task (fail termination reason kind steps tools trace)
failed task termination reason kind steps tools trace h =
    inr (refl, record { reason = (reason, refl); kind = (kind, refl, h) })

terminal_type-in_taxonomy :
    (t : Option String) (reason : String) → in_taxonomy (terminal_type t reason) ≡ true
terminal_type-in_taxonomy none reason = classify_failure-in_taxonomy reason
terminal_type-in_taxonomy (some t) reason = elim (Bool-cases (in_taxonomy t)) [
  | inl e ↦ rw (e, e) refl
  | inr e ↦ rw e (classify_failure-in_taxonomy reason)
]

-- A terminal validation is normalized to a failure type of the taxonomy, whatever it holds.
pub normalize_terminal_validation-in_taxonomy :
    (validation : Dict Value)
    → in_taxonomy ((normalize_terminal_validation validation).failure_type) ≡ true
unfolding normalize_terminal_validation
normalize_terminal_validation-in_taxonomy validation =
    terminal_type-in_taxonomy (coerce_str (get_or_null "failure_type" validation))
      (or_text (coerce_str (get_or_null "termination_reason" validation)) "logic_failure")
