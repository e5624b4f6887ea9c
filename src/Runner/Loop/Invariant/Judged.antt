-- ===== src/Runner/Loop/Invariant/Judged.antt =====
-- The end of an iteration, from the entry that it records to what the validator says.
use tracecore.Prelude.{
  ℕ, suc, ◌+◌, ◌≤◌, ◌≡◌, refl, sym, ap, ◌∙◌, String, List, [], ◌∷◌, ◌++◌, length, length-append,
  arith, inl, inr, Bool-cases,
}
use tracecore.Prelude.Int.{ℤ, pos, ◌-ℤ◌, ◌≤ℤ◌, ltb_ℤ}
use tracecore.Prelude.Dict.{Dict}
use tracecore.Value.{Value, truthy, get_or_null}
use tracecore.Exc.{Result, ok, raised}
use tracecore.Env.Guard.{Guarded, Audit}
use tracecore.Runner.Model.{Agent, Task, World, Outcome, Loop, Next, Turn, fail, refused_entry}
use tracecore.Runner.Validation.{normalize_terminal_validation}
use tracecore.Runner.Loop.Justified.{IsJustified, normalize_terminal_validation-in_taxonomy}
use tracecore.Runner.Loop.{judge, judged, verdict, steps_used, tool_calls_used}
use tracecore.Runner.Loop.Invariant.{
  Numbered, Numbered-append, charged, charged-append, IsRunning, IsWithin, IsActing, Ensures,
  used-IsSpent, spent-le, nonneg,
}

module _ {H S : Type 0} (agent : Agent S) (task : Task H) (world : World)
    (max_steps max_tool_calls : ℤ) where
  -- A result is within the budgets and justified; the next head of the loop has `n` steps recorded.
  abbrev pub Keeps : ℕ → Next H S → Type 0
  Keeps n =
      Ensures (λ o. IsWithin max_steps max_tool_calls o × IsJustified task o)
        (λ l. IsRunning max_steps max_tool_calls l × (length l.action_trace ≡ n))

  -- A result that reports `su` steps and `tu` tool calls.
  pub within :
      (o : Outcome) (su tu : ℕ)
      → o.steps_used ≡ pos su
      → o.tool_calls_used ≡ pos tu
      → pos su ≤ℤ max_steps
      → pos tu ≤ℤ max_tool_calls
      → length o.action_trace ≤ su
      → su ≤ suc (length o.action_trace)
      → tu ≤ su
      → tu ≡ charged o.action_trace
      → length o.action_trace ≤ suc tu
      → Numbered max_steps max_tool_calls 0 0 o.action_trace
      → IsWithin max_steps max_tool_calls o
  within o su tu s t ms mt low high one calls but_one numbered = record {
    steps = rw s ms;
    tool_calls = rw t mt;
    recorded = rw s (omega arith);
    last = rw s (omega arith);
    one_each = rw (s, t) (omega arith);
    charged_calls = rw (t, calls) refl;
    all_but_one = omega (arith, calls);
    numbered = numbered;
  }

  module _ (l : Loop H S) (o : Outcome) (r : IsRunning max_steps max_tool_calls l) where
    -- A result at the head of the loop, or of an agent that raised.
    pub IsWithin-running :
        o.steps_used ≡ max_steps -ℤ l.budget.steps_remaining
        → o.tool_calls_used ≡ max_tool_calls -ℤ l.budget.tool_calls_remaining
        → o.action_trace ≡ l.action_trace
        → IsWithin max_steps max_tool_calls o
    IsWithin-running s t e =
        let n = length l.action_trace in
        within o n n (s ∙ used-IsSpent _ n _ r.steps) (t ∙ used-IsSpent _ n _ r.tool_calls)
          (spent-le max_steps n _ r.steps r.some_steps)
          (spent-le max_tool_calls n _ r.tool_calls r.some_tool_calls) (rw e (omega arith))
          (rw e (omega arith)) (omega arith) (rw e (omega (arith, r.all_charged)))
          (rw e (omega arith)) (rw e r.numbered)

  verdict-Keeps :
      (l : Loop H S) (n : ℕ) (v : Dict Value) (g : Guarded H)
      → length l.action_trace ≡ suc n
      → task.validate g ≡ (ok v, l.guarded)
      → IsRunning max_steps max_tool_calls l
      → Keeps (suc n) (verdict agent task world max_steps max_tool_calls l v)
  unfolding steps_used tool_calls_used
  verdict-Keeps l n v g len q r = elim (Bool-cases (truthy (get_or_null "ok" v))) [
    | inl e ↦ rw e (
      IsWithin-running l _ r refl refl refl,
      inl (
        refl,
        record {
          before = g;
          after = l.guarded;
          validation = v;
          asked = q;
          approved = e;
          reported = refl;
          some_step = omega (arith, len);
          termination = refl;
          no_reason = refl;
          no_type = refl;
        },
      ),
    )
    | inr e ↦ elim (Bool-cases (truthy (get_or_null "terminal" v))) [
      | inl f ↦
          let t = normalize_terminal_validation v in
          rw (e, f)
            (
              IsWithin-running l _ r refl refl refl,
              inr (
                refl,
                record {
                  reason = (t.failure_reason, refl);
                  kind = (t.failure_type, refl, normalize_terminal_validation-in_taxonomy v);
                },
              ),
            )
      | inr f ↦ rw (e, f) (r, len)
    ]
  ]

  judged-Keeps :
      (l : Loop H S) (n : ℕ) (v : Result (Dict Value) × Guarded H) (g : Guarded H)
      → length l.action_trace ≡ suc n
      → task.validate g ≡ v
      → IsRunning max_steps max_tool_calls l
      → Keeps (suc n) (judged agent task world max_steps max_tool_calls l v)
  judged-Keeps l n (raised e, g') g len q r = tt
  judged-Keeps l n (ok v, g') g len q r =
      verdict-Keeps (record l { guarded = g' }) n v g len q
        (record {
          steps = r.steps;
          tool_calls = r.tool_calls;
          some_steps = r.some_steps;
          some_tool_calls = r.some_tool_calls;
          no_timeout = r.no_timeout;
          all_charged = r.all_charged;
          numbered = r.numbered;
        })

  pub judge-Keeps :
      (l : Loop H S) (n : ℕ)
      → length l.action_trace ≡ suc n
      → IsRunning max_steps max_tool_calls l
      → Keeps (suc n) (judge agent task world max_steps max_tool_calls l)
  unfolding judge
  judge-Keeps l n len r = elim (Bool-cases (ltb_ℤ l.budget.tool_calls_remaining (pos 0))) [
    | inl e ↦ absurd (nonneg l.budget.tool_calls_remaining r.some_tool_calls e)
    | inr e ↦ rw e (judged-Keeps l n (task.validate l.guarded) l.guarded len refl r)
  ]

  module _ (l : Loop H S) (turn : Turn) (a : IsActing max_steps max_tool_calls l turn) where
    -- A result with the entry of an action that was not carried out.
    pub IsWithin-refused :
        (termination reason kind message error : String) (audit : List Audit)
        → IsWithin max_steps max_tool_calls (
            fail termination reason kind
              (steps_used agent task world max_steps max_tool_calls l.budget)
              (tool_calls_used agent task world max_steps max_tool_calls l.budget)
              (l.action_trace ++ refused_entry turn message error audit l.budget ∷ []))
    unfolding steps_used tool_calls_used
    IsWithin-refused termination reason kind message error audit =
        let n = length l.action_trace in
        let entry = refused_entry turn message error audit l.budget in
        let len : length (l.action_trace ++ entry ∷ []) ≡ n + 1 =
          length-append l.action_trace (entry ∷ []) in
        let calls : charged (l.action_trace ++ entry ∷ []) ≡ n =
          charged-append l.action_trace entry ∙ omega (arith, a.all_charged) in
        within _ (suc n) n (used-IsSpent _ (suc n) _ a.steps) (used-IsSpent _ n _ a.tool_calls)
          (spent-le max_steps (suc n) _ a.steps a.some_steps)
          (spent-le max_tool_calls n _ a.tool_calls a.some_tool_calls) (omega (arith, len))
          (omega (arith, len)) (omega arith) (sym calls) (omega (arith, len))
          (Numbered-append max_steps max_tool_calls 0 0 l.action_trace entry a.numbered
            (a.turn_number ∙ ap (λ k. pos (suc k)) (omega arith)) (omega (arith, a.steps))
            (omega (arith, a.tool_calls, a.all_charged)) (omega arith))
