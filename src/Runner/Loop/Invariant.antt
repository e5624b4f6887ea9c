-- ===== src/Runner/Loop/Invariant.antt =====
-- What holds at the head of the loop, and of a result.
pub mod Judged
pub mod Kept
pub mod Total
use tracecore.Prelude.{
  ℕ, zero, suc, ◌+◌, ◌≤◌, ◌<◌, ◌≡◌, ◌≢◌, refl, ap, ◌∙◌, String, Bool, true, false, Option, none,
  some, List, [], ◌∷◌, ◌++◌, length, length-append, arith, inl, inr, Bool-cases, if◌then◌else◌,
}
use tracecore.Prelude.Int.{
  ℤ, pos, pos_part, neg_part, ◌+ℤ◌, ◌-ℤ◌, ◌≤ℤ◌, leb_ℤ, ltb_ℤ, int_laws, +ℤ_parts, -ℤ_parts,
  eq_of_parts,
}
use tracecore.Prelude.Dict.{Dict}
use tracecore.Value.{Value, truthy, get_or_null}
use tracecore.Exc.{Exc, Result, ok, raised, sandbox_violation}
use tracecore.Budgets.{Budgets, consume_step, consume_tool_call, timed_out}
use tracecore.Env.Guard.{Guarded, Audit}
use tracecore.Runner.Model.{
  Agent, Task, World, Entry, Outcome, Loop, Next, finish, crash, go_on, Turn, fail, refused_entry,
  mark_listed,
}
use tracecore.Runner.Validation.{normalize_terminal_validation}
use tracecore.Runner.Loop.Justified.{
  IsAccepted, IsFailed, IsJustified, failed, normalize_terminal_validation-in_taxonomy,
}
use tracecore.Runner.Loop.{
  iteration, observed_by, answered, agent_raised, decided, dispatch, called, acted, marked, judge,
  judged, verdict, step_number, steps_used, tool_calls_used, broken,
}

-- `max` is `n` more than what remains.
abbrev pub IsSpent : ℤ → ℕ → ℤ → Type 0
IsSpent max n rest = pos_part max + neg_part rest ≡ n + pos_part rest + neg_part max

-- The entries carry their numbers, from `n + 1`, and the steps and tool calls that were left after
-- them, where `c` calls were made before; each is charged one call at most.
abbrev pub Numbered : ℤ → ℤ → ℕ → ℕ → List Entry → Type 0
Numbered max max_calls n c [] = Unit
Numbered max max_calls n c (e ∷ es) =
    (e.step ≡ pos (suc n))
    × IsSpent max (suc n) e.steps_after
    × IsSpent max_calls (c + e.tool_calls_delta) e.tool_calls_after
    × (e.tool_calls_delta ≤ 1)
    × Numbered max max_calls (suc n) (c + e.tool_calls_delta) es

-- The tool calls that the entries of a trace were charged.
abbrev pub charged : List Entry → ℕ
charged [] = 0
charged (e ∷ es) = e.tool_calls_delta + charged es

charged-append :
    (es : List Entry) (e : Entry) → charged (es ++ e ∷ []) ≡ charged es + e.tool_calls_delta
charged-append [] e = omega arith
charged-append (x ∷ xs) e = omega (arith, charged-append xs e)

Numbered-append :
    (max max_calls : ℤ) (n c : ℕ) (es : List Entry) (e : Entry)
    → Numbered max max_calls n c es
    → e.step ≡ pos (suc (n + length es))
    → IsSpent max (suc (n + length es)) e.steps_after
    → IsSpent max_calls (c + charged es + e.tool_calls_delta) e.tool_calls_after
    → e.tool_calls_delta ≤ 1
    → Numbered max max_calls n c (es ++ e ∷ [])
Numbered-append max max_calls n c [] e h s a b d = (ground arith, ground arith, ground arith, d, tt)
Numbered-append max max_calls n c (x ∷ xs) e h s a b d = (
  h.0,
  h.1,
  h.2,
  h.3,
  Numbered-append max max_calls (suc n) (c + x.tool_calls_delta) xs e h.4 (ground arith)
      (ground arith) (ground arith) d,
)

module _ (max_steps max_tool_calls : ℤ) where
  -- At the head of the loop every iteration so far has used one step and one tool call.
  pub record IsRunning {H S : Type 0} (l : Loop H S) : Type 0 where
    pub steps : IsSpent max_steps (length l.action_trace) l.budget.steps_remaining
    pub tool_calls : IsSpent max_tool_calls (length l.action_trace) l.budget.tool_calls_remaining
    pub some_steps : pos 0 ≤ℤ l.budget.steps_remaining
    pub some_tool_calls : pos 0 ≤ℤ l.budget.tool_calls_remaining
    pub no_timeout : l.budget.timeout_s ≡ none
    pub all_charged : charged l.action_trace ≡ length l.action_trace
    pub numbered : Numbered max_steps max_tool_calls 0 0 l.action_trace

  -- The steps and tool calls that a result reports lie within the budgets. The steps agree with the
  -- trace up to the last step, which may be missing from it; the tool calls are those that the
  -- entries of the trace were charged, one for each entry but perhaps for one.
  pub record IsWithin (o : Outcome) : Type 0 where
    pub steps : o.steps_used ≤ℤ max_steps
    pub tool_calls : o.tool_calls_used ≤ℤ max_tool_calls
    pub recorded : pos (length o.action_trace) ≤ℤ o.steps_used
    pub last : o.steps_used ≤ℤ pos (suc (length o.action_trace))
    pub one_each : o.tool_calls_used ≤ℤ o.steps_used
    pub charged_calls : o.tool_calls_used ≡ pos (charged o.action_trace)
    pub all_but_one : length o.action_trace ≤ suc (charged o.action_trace)
    pub numbered : Numbered max_steps max_tool_calls 0 0 o.action_trace

  -- While an action is carried out, its step is used and not yet recorded.
  record IsActing {H S : Type 0} (l : Loop H S) (turn : Turn) : Type 0 where
    steps : IsSpent max_steps (suc (length l.action_trace)) l.budget.steps_remaining
    tool_calls : IsSpent max_tool_calls (length l.action_trace) l.budget.tool_calls_remaining
    some_steps : pos 0 ≤ℤ l.budget.steps_remaining
    some_tool_calls : pos 0 ≤ℤ l.budget.tool_calls_remaining
    no_timeout : l.budget.timeout_s ≡ none
    all_charged : charged l.action_trace ≡ length l.action_trace
    numbered : Numbered max_steps max_tool_calls 0 0 l.action_trace
    turn_number : turn.step ≡ pos (suc (length l.action_trace))

-- What an iteration leaves: a result, or the head of the loop again.
abbrev pub Ensures : {H S : Type 0} → (Outcome → Type 0) → (Loop H S → Type 0) → Next H S → Type 0
Ensures P Q (finish o) = P o
Ensures P Q (crash e) = Unit
Ensures P Q (go_on l) = Q l

used-IsSpent : (max : ℤ) (n : ℕ) (rest : ℤ) → IsSpent max n rest → max -ℤ rest ≡ pos n
used-IsSpent max n rest h = eq_of_parts (max -ℤ rest) (pos n) (omega (arith, -ℤ_parts max rest))

spend : (max : ℤ) (n : ℕ) (rest : ℤ) → IsSpent max n rest → IsSpent max (suc n) (rest -ℤ pos 1)
spend max n rest h = omega (arith, -ℤ_parts rest (pos 1))

spent-le : (max : ℤ) (n : ℕ) (rest : ℤ) → IsSpent max n rest → pos 0 ≤ℤ rest → pos n ≤ℤ max
spent-le max n rest h p = omega arith

all_spent :
    (max : ℤ) (n : ℕ) (rest : ℤ)
    → IsSpent max n rest
    → pos 0 ≤ℤ rest
    → leb_ℤ rest (pos 0) ≡ true
    → max ≡ pos n
all_spent max n rest h p z = eq_of_parts max (pos n) (ground arith)

some_left : (rest : ℤ) → leb_ℤ rest (pos 0) ≡ false → pos 0 ≤ℤ rest -ℤ pos 1
some_left rest z = ground (arith, -ℤ_parts rest (pos 1))

nonneg : (rest : ℤ) → pos 0 ≤ℤ rest → ltb_ℤ rest (pos 0) ≡ true → ⊥
nonneg rest p z = ground arith
