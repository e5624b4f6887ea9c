-- ===== src/Runner/Loop/Invariant/Kept.antt =====
-- Every iteration keeps the invariant of the loop, or ends in a result within the budgets.
use tracecore.Prelude.{
  suc, ◌+◌, ◌≡◌, refl, sym, ap, ◌∙◌, String, false, Option, none, some, List, [], ◌∷◌, ◌++◌, length,
  length-append, arith, inl, inr, Bool-cases,
}
use tracecore.Prelude.Int.{ℤ, pos, ◌+ℤ◌, leb_ℤ, +ℤ_parts, eq_of_parts}
use tracecore.Value.{Value}
use tracecore.Exc.{Exc, Result, ok, raised, sandbox_violation}
use tracecore.Budgets.{consume_step, consume_tool_call, timed_out}
use tracecore.Env.Guard.{Guarded, Audit, consume_audit}
use tracecore.Runner.Model.{Agent, Task, World, Outcome, Loop, Next, Turn}
use tracecore.Runner.Loop.{
  iteration, observed_by, answered, agent_raised, decided, dispatch, called, acted, marked, broken,
  step_number, steps_used, tool_calls_used, completed_entry,
}
use tracecore.Runner.Loop.Justified.{IsJustified, failed}
use tracecore.Runner.Loop.Invariant.{
  Numbered-append, charged-append, IsRunning, IsWithin, IsActing, used-IsSpent, spend, spent-le,
  all_spent, some_left,
}
use tracecore.Runner.Loop.Invariant.Judged.{
  Keeps, within, IsWithin-running, IsWithin-refused, judge-Keeps,
}

module _ {H S : Type 0} (agent : Agent S) (task : Task H) (world : World)
    (max_steps max_tool_calls : ℤ) where
  abbrev Running : Loop H S → Type 0
  Running = IsRunning max_steps max_tool_calls

  abbrev Acting : Loop H S → Turn → Type 0
  Acting = IsActing max_steps max_tool_calls

  -- A step after the ones that the trace of `l` holds.
  abbrev Kept : Loop H S → Next H S → Type 0
  Kept l = Keeps agent task world max_steps max_tool_calls (suc (length l.action_trace))

  -- The results that the runner writes out.
  abbrev IsSound : Outcome → Type 0
  IsSound o = IsWithin max_steps max_tool_calls o × IsJustified task o

  broken-IsSound :
      (l : Loop H S) (turn : Turn) (audit : List Audit) (e : Exc)
      → Acting l turn
      → IsSound (broken agent task world max_steps max_tool_calls l turn audit e)
  broken-IsSound l turn audit (sandbox_violation v) a = (
    IsWithin-refused agent task world max_steps max_tool_calls l turn a _ _ _ _ _ _,
    failed task _ _ "sandbox_violation" _ _ _ refl,
  )
  broken-IsSound l turn audit _ a = (
    IsWithin-refused agent task world max_steps max_tool_calls l turn a _ _ _ _ _ _,
    failed task _ _ "invalid_action" _ _ _ refl,
  )

  -- The tool call is charged before the entry is recorded; there was one left.
  marked-Kept :
      (l : Loop H S) (turn : Turn) (result : Value) (audit : List Audit)
      (m : Result (Unit {0}) × Guarded H)
      → Acting l turn
      → leb_ℤ l.budget.tool_calls_remaining (pos 0) ≡ false
      → Kept l (
          marked agent task world max_steps max_tool_calls
            (record l { budget = consume_tool_call l.budget })
            turn
            result
            audit
            m)
  unfolding consume_tool_call
  marked-Kept l turn result audit (raised e, g) a more = tt
  marked-Kept l turn result audit (ok _, g) a more =
      let n = length l.action_trace in
      let charged : Loop H S = record l { budget = consume_tool_call l.budget } in
      let entry =
        completed_entry agent task world max_steps max_tool_calls charged turn result audit in
      let len : length (l.action_trace ++ entry ∷ []) ≡ n + 1 =
        length-append l.action_trace (entry ∷ []) in
      judge-Keeps agent task world max_steps max_tool_calls _ n (len ∙ omega arith) (record {
        steps = omega (arith, len, a.steps);
        tool_calls =
            omega (arith, len, spend max_tool_calls n l.budget.tool_calls_remaining a.tool_calls);
        some_steps = a.some_steps;
        some_tool_calls = some_left l.budget.tool_calls_remaining more;
        no_timeout = a.no_timeout;
        all_charged = charged-append l.action_trace entry ∙ omega (arith, a.all_charged, len);
        numbered =
            Numbered-append max_steps max_tool_calls 0 0 l.action_trace entry a.numbered
              (a.turn_number ∙ ap (λ k. pos (suc k)) (omega arith)) (omega (arith, a.steps))
              (omega (
                arith,
                a.all_charged,
                spend max_tool_calls n l.budget.tool_calls_remaining a.tool_calls,
              ))
              (omega arith);
      })

  acted-Kept :
      (l : Loop H S) (turn : Turn) (audit : List Audit) (r : Result Value)
      → Acting l turn
      → leb_ℤ l.budget.tool_calls_remaining (pos 0) ≡ false
      → Kept l (acted agent task world max_steps max_tool_calls l turn audit r)
  acted-Kept l turn audit (raised e) a more = broken-IsSound l turn audit e a
  acted-Kept l turn audit (ok result) a more = marked-Kept l turn result audit _ a more

  called-Kept :
      (l : Loop H S) (turn : Turn) (c : Result Value × Guarded H)
      → Acting l turn
      → leb_ℤ l.budget.tool_calls_remaining (pos 0) ≡ false
      → Kept l (called agent task world max_steps max_tool_calls l turn c)
  called-Kept l turn (r, g) a more =
      let (audit, g') = consume_audit g in
      acted-Kept (record l { guarded = g' }) turn audit r
        (record {
          steps = a.steps;
          tool_calls = a.tool_calls;
          some_steps = a.some_steps;
          some_tool_calls = a.some_tool_calls;
          no_timeout = a.no_timeout;
          all_charged = a.all_charged;
          numbered = a.numbered;
          turn_number = a.turn_number;
        })
        more

  dispatch-Kept :
      (l : Loop H S) (turn : Turn)
      → Acting l turn
      → Kept l (dispatch agent task world max_steps max_tool_calls l turn)
  unfolding dispatch steps_used
  dispatch-Kept l turn a = elim (Bool-cases (leb_ℤ l.budget.tool_calls_remaining (pos 0))) [
    | inr e ↦ rw e (called-Kept l turn _ a e)
    | inl e ↦
        let n = length l.action_trace in
        let spent : max_tool_calls ≡ pos n =
          all_spent max_tool_calls n l.budget.tool_calls_remaining a.tool_calls a.some_tool_calls
            e in
        rw e (
          within agent task world max_steps max_tool_calls _ (suc n) n
              (used-IsSpent max_steps (suc n) l.budget.steps_remaining a.steps) spent
              (spent-le max_steps (suc n) _ a.steps a.some_steps)
              (spent-le max_tool_calls n _ a.tool_calls a.some_tool_calls) (omega arith)
              (omega arith) (omega arith) (sym a.all_charged) (omega arith) a.numbered,
          failed task _ _ "budget_exhausted" _ _ _ refl,
        )
  ]

  decided-Kept :
      (l : Loop H S) (turn : Turn) (reason : Option String)
      → Acting l turn
      → Kept l (decided agent task world max_steps max_tool_calls l turn reason)
  decided-Kept l turn none a = dispatch-Kept l turn a
  decided-Kept l turn (some reason) a = (
    IsWithin-refused agent task world max_steps max_tool_calls l turn a _ _ _ _ _ _,
    failed task _ _ "invalid_action" _ _ _ refl,
  )

  agent_raised-Kept :
      (l : Loop H S) (e : Exc)
      → Running l
      → Kept l (agent_raised agent task world max_steps max_tool_calls l e)
  unfolding steps_used tool_calls_used
  agent_raised-Kept l (sandbox_violation v) r = (
    IsWithin-running agent task world max_steps max_tool_calls l _ r refl refl refl,
    failed task _ _ "sandbox_violation" _ _ _ refl,
  )
  agent_raised-Kept l _ r = tt

  -- The step is used as soon as the agent has answered.
  answered-Kept :
      (l : Loop H S) (observed : Value) (answer : Result Value × S)
      → Running l
      → leb_ℤ l.budget.steps_remaining (pos 0) ≡ false
      → Kept l (
          answered agent task world max_steps max_tool_calls l
            (step_number agent task world max_steps max_tool_calls l.budget)
            observed
            answer)
  unfolding step_number consume_step
  answered-Kept l observed (raised e, s) r more = agent_raised-Kept l e r
  answered-Kept l observed (ok action, s) r more =
      let n = length l.action_trace in
      decided-Kept _ _ _ (record {
        steps = spend max_steps n l.budget.steps_remaining r.steps;
        tool_calls = r.tool_calls;
        some_steps = some_left l.budget.steps_remaining more;
        some_tool_calls = r.some_tool_calls;
        no_timeout = r.no_timeout;
        all_charged = r.all_charged;
        numbered = r.numbered;
        turn_number =
            rw (used-IsSpent max_steps n l.budget.steps_remaining r.steps) (
              eq_of_parts (pos n +ℤ pos 1) (pos (suc n)) (omega (arith, +ℤ_parts (pos n) (pos 1))));
      })

  observed_by-Kept :
      (l : Loop H S) (observed : Value) (o : Result (Unit {0}) × S)
      → Running l
      → leb_ℤ l.budget.steps_remaining (pos 0) ≡ false
      → Kept l (
          observed_by agent task world max_steps max_tool_calls l
            (step_number agent task world max_steps max_tool_calls l.budget)
            observed
            o)
  observed_by-Kept l observed (raised e, s) r more = agent_raised-Kept l e r
  observed_by-Kept l observed (ok _, s) r more = answered-Kept l observed (agent.act s) r more

  pub iteration-Kept :
      (l : Loop H S) → Running l → Kept l (iteration agent task world max_steps max_tool_calls l)
  unfolding iteration steps_used tool_calls_used
  iteration-Kept l r =
      let n = length l.action_trace in
      elim (Bool-cases (timed_out (world.clock n) l.budget)) [
        | inl e ↦ rw e (
          IsWithin-running agent task world max_steps max_tool_calls l _ r refl refl refl,
          failed task _ _ "timeout" _ _ _ refl,
        )
        | inr e ↦ elim (Bool-cases (leb_ℤ l.budget.steps_remaining (pos 0))) [
          | inr more ↦ rw (e, more) (observed_by-Kept l _ _ r more)
          | inl done ↦
              rw (e, done)
                (
                  within agent task world max_steps max_tool_calls _ n n
                      (all_spent max_steps n l.budget.steps_remaining r.steps r.some_steps done)
                      (used-IsSpent max_tool_calls n l.budget.tool_calls_remaining r.tool_calls)
                      (spent-le max_steps n _ r.steps r.some_steps)
                      (spent-le max_tool_calls n _ r.tool_calls r.some_tool_calls) (omega arith)
                      (omega arith) (omega arith) (sym r.all_charged) (omega arith) r.numbered,
                  failed task _ _ "budget_exhausted" _ _ _ refl,
                )
        ]
      ]
