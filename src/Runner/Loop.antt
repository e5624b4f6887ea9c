-- ===== src/Runner/Loop.antt =====
-- The `while True` loop of `run` in agent_bench/runner/runner.py, one function to a stage.
pub mod Justified
pub mod Invariant
pub mod Carried
use tracecore.Prelude.{
  ℕ, zero, suc, String, true, false, Option, none, some, List, [], ◌∷◌, ◌++◌, length, if◌then◌else◌,
}
use tracecore.Prelude.Int.{ℤ, pos, ◌+ℤ◌, ◌-ℤ◌, leb_ℤ, ltb_ℤ}
use tracecore.Prelude.Dict.{Dict}
use tracecore.Prelude.Text.{◌<>◌}
use tracecore.Value.{Value, null, int, str, obj, truthy, get_or_null}
use tracecore.Exc.{Exc, Result, ok, raised, sandbox_violation}
use tracecore.Budgets.{Budgets, consume_step, consume_tool_call, timed_out}
use tracecore.Env.State
use tracecore.Env.Guard.{Guarded, Audit, begin_step, consume_audit}
use tracecore.Runner.Action.{validate_action, action_type, action_args}
use tracecore.Runner.Validation.{Terminal, snapshot_validation, normalize_terminal_validation}
use tracecore.Runner.Model.{
  Agent, Task, World, Entry, Outcome, Loop, Next, finish, crash, go_on, Exit, returned, crashed,
  out_of_fuel, Turn, fail, refused_entry, error_of, mark_listed,
}

module _ {H S : Type 0} (agent : Agent S) (task : Task H) (world : World)
    (max_steps max_tool_calls : ℤ) where
  pub steps_used : Budgets → ℤ
  steps_used b = max_steps -ℤ b.steps_remaining

  pub tool_calls_used : Budgets → ℤ
  tool_calls_used b = max_tool_calls -ℤ b.tool_calls_remaining

  unfoldable pub step_number : Budgets → ℤ
  step_number b = (max_steps -ℤ b.steps_remaining) +ℤ pos 1

  unfoldable pub observation : Loop H S → Value
  observation l = obj (
      ("step", int (step_number l.budget))
      ∷ ("task", obj (("id", str task.id) ∷ ("description", str task.description) ∷ []))
      ∷ ("last_action", l.last_action)
      ∷ ("last_action_result", l.last_result)
      ∷ ("visible_state", State.visible_state l.guarded.env)
      ∷ (
        "budget_remaining",
        obj (
            ("steps", int l.budget.steps_remaining)
            ∷ ("tool_calls", int l.budget.tool_calls_remaining)
            ∷ []),
      )
      ∷ [])

  -- The result when the validator accepts.
  abbrev accepted : Loop H S → Dict Value → Outcome
  accepted l validation = record {
    success = true;
    termination_reason = "success";
    failure_reason = none;
    failure_type = none;
    steps_used = steps_used l.budget;
    tool_calls_used = tool_calls_used l.budget;
    action_trace = l.action_trace;
    validator = snapshot_validation validation;
  }

  -- The result when the validator ends the run.
  abbrev rejected : Loop H S → Terminal → Outcome
  rejected l t = record {
    success = false;
    termination_reason = t.termination_reason;
    failure_reason = some t.failure_reason;
    failure_type = some t.failure_type;
    steps_used = steps_used l.budget;
    tool_calls_used = tool_calls_used l.budget;
    action_trace = l.action_trace;
    validator = some t.snapshot;
  }

  abbrev verdict : Loop H S → Dict Value → Next H S
  verdict l validation =
      if truthy (get_or_null "ok" validation)
      then finish (accepted l validation)
      else if truthy (get_or_null "terminal" validation)
      then finish (rejected l (normalize_terminal_validation validation))
      else go_on l

  abbrev judged : Loop H S → Result (Dict Value) × Guarded H → Next H S
  judged l (raised e, g) = crash e
  judged l (ok validation, g) = verdict (record l { guarded = g }) validation

  -- The check after the entry is recorded, then the validator.
  unfoldable pub judge : Loop H S → Next H S
  judge l =
      if ltb_ℤ l.budget.tool_calls_remaining (pos 0)
      then finish (
          fail "tool_calls_exhausted" "tool_calls_exhausted" "budget_exhausted"
            (steps_used l.budget) max_tool_calls l.action_trace)
      else judged l (task.validate l.guarded)

  abbrev completed_entry : Loop H S → Turn → Value → List Audit → Entry
  completed_entry l turn result audit = record {
    step = turn.step;
    observation = turn.observation;
    action = turn.action;
    result = result;
    io_audit = audit;
    llm_trace = if world.include_llm_trace then agent.llm_trace l.agent else null;
    steps_after = l.budget.steps_remaining;
    tool_calls_after = l.budget.tool_calls_remaining;
    tool_calls_delta = 1;
    error = error_of result;
  }

  abbrev marked : Loop H S → Turn → Value → List Audit → Result (Unit {0}) × Guarded H → Next H S
  marked l turn result audit (raised e, g) = crash e
  marked l turn result audit (ok _, g) = judge (record l {
    guarded = g;
    last_action = turn.action;
    last_result = result;
    action_trace = l.action_trace ++ completed_entry l turn result audit ∷ [];
  })

  -- A violation inside the action, and any other exception of it.
  abbrev broken : Loop H S → Turn → List Audit → Exc → Outcome
  broken l turn audit (sandbox_violation v) =
      let message = world.describe (sandbox_violation v) in
      fail "sandbox_violation" message "sandbox_violation" (steps_used l.budget)
        (tool_calls_used l.budget)
        (l.action_trace
          ++ refused_entry turn ("sandbox_violation:" <> message) "sandbox_violation" audit l.budget
            ∷ [])
  broken l turn audit e =
      let message = "action_exception:" <> world.describe e in
      fail "action_exception" message "invalid_action" (steps_used l.budget)
        (tool_calls_used l.budget)
        (l.action_trace ++ refused_entry turn message "action_exception" audit l.budget ∷ [])

  abbrev acted : Loop H S → Turn → List Audit → Result Value → Next H S
  acted l turn audit (raised e) = finish (broken l turn audit e)
  acted l turn audit (ok result) =
      let charged : Loop H S = record l { budget = consume_tool_call l.budget } in
      marked charged turn result audit (mark_listed (action_type turn.action) result l.guarded)

  abbrev called : Loop H S → Turn → Result Value × Guarded H → Next H S
  called l turn (r, g) =
      let (audit, g') = consume_audit g in acted (record l { guarded = g' }) turn audit r

  -- The call of the action, between `begin_step` and `consume_audit`.
  unfoldable pub dispatch : Loop H S → Turn → Next H S
  dispatch l turn =
      if leb_ℤ l.budget.tool_calls_remaining (pos 0)
      then finish (
          fail "tool_calls_exhausted" "tool_calls_exhausted" "budget_exhausted"
            (steps_used l.budget) max_tool_calls l.action_trace)
      else called l turn (
          task.call (action_type turn.action) (action_args turn.action)
            (begin_step turn.step l.guarded))

  abbrev decided : Loop H S → Turn → Option String → Next H S
  decided l turn none = dispatch l turn
  decided l turn (some reason) = finish (
      fail "invalid_action" reason "invalid_action" (steps_used l.budget) (tool_calls_used l.budget)
        (l.action_trace ++ refused_entry turn reason reason [] l.budget ∷ []))

  -- An exception of the agent: a violation ends the run, any other goes through.
  abbrev agent_raised : Loop H S → Exc → Next H S
  agent_raised l (sandbox_violation v) = finish (
      fail "sandbox_violation" (world.describe (sandbox_violation v)) "sandbox_violation"
        (steps_used l.budget) (tool_calls_used l.budget) l.action_trace)
  agent_raised l e = crash e

  abbrev answered : Loop H S → ℤ → Value → Result Value × S → Next H S
  answered l step observed (raised e, s) = agent_raised l e
  answered l step observed (ok action, s) =
      decided (record l { budget = consume_step l.budget; agent = s })
        (record { step = step; observation = observed; action = action })
        (validate_action action task.schema)

  abbrev observed_by : Loop H S → ℤ → Value → Result (Unit {0}) × S → Next H S
  observed_by l step observed (raised e, s) = agent_raised l e
  observed_by l step observed (ok _, s) = answered l step observed (agent.act s)

  -- The body of the loop.
  unfoldable pub iteration : Loop H S → Next H S
  iteration l =
      if timed_out (world.clock (length l.action_trace)) l.budget
      then finish (
          fail "timeout" "timeout" "timeout" (steps_used l.budget) (tool_calls_used l.budget)
            l.action_trace)
      else if leb_ℤ l.budget.steps_remaining (pos 0)
      then finish (
          fail "steps_exhausted" "steps_exhausted" "budget_exhausted" max_steps
            (tool_calls_used l.budget) l.action_trace)
      else observed_by l (step_number l.budget) (observation l)
          (agent.observe (observation l) l.agent)

  -- The loop with fuel: `out_of_fuel` is no result of the source.
  unfoldable pub run_loop : ℕ → Loop H S → Exit
  run_loop zero l = out_of_fuel
  run_loop (suc n) l = elim (iteration l) [
    | finish o ↦ returned o
    | crash e ↦ crashed e
    | go_on l' ↦ run_loop n l'
  ]
