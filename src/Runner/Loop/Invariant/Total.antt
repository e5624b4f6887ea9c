-- ===== src/Runner/Loop/Invariant/Total.antt =====
-- The loop ends, and what it ends with.
use tracecore.Prelude.{ℕ, zero, suc, ◌+◌, ◌<◌, length, arith}
use tracecore.Prelude.Int.{ℤ, pos_part}
use tracecore.Runner.Model.{
  Agent, Task, World, Outcome, Loop, Next, finish, crash, go_on, Exit, returned, crashed,
  out_of_fuel,
}
use tracecore.Runner.Loop.{iteration, run_loop}
use tracecore.Runner.Loop.Justified.{IsJustified}
use tracecore.Runner.Loop.Invariant.{IsRunning, IsWithin}
use tracecore.Runner.Loop.Invariant.Judged.{Keeps}
use tracecore.Runner.Loop.Invariant.Kept.{iteration-Kept}

-- The loop returned a result with a property, or let an exception of the agent, the task or the
-- validator through; it did not run out of fuel.
abbrev pub Exits : (Outcome → Type 0) → Exit → Type 0
Exits P (returned o) = P o
Exits P (crashed e) = Unit
Exits P out_of_fuel = ⊥

module _ {H S : Type 0} (agent : Agent S) (task : Task H) (world : World)
    (max_steps max_tool_calls : ℤ) where
  abbrev Good : Exit → Type 0
  Good = Exits (λ o. IsWithin max_steps max_tool_calls o × IsJustified task o)

  -- The loop from `l` with so much fuel.
  abbrev Ends : ℕ → Loop H S → Type 0
  Ends fuel l = Good (run_loop agent task world max_steps max_tool_calls fuel l)

  turn-Ends :
      (fuel n : ℕ) (next : Next H S)
      → ((l : Loop H S)
          → IsRunning max_steps max_tool_calls l
          → pos_part max_steps < length l.action_trace + fuel
          → Ends fuel l)
      → Keeps agent task world max_steps max_tool_calls (suc n) next
      → pos_part max_steps < n + suc fuel
      → Good (elim next [
        | finish o ↦ returned o
        | crash e ↦ crashed e
        | go_on l ↦ run_loop agent task world max_steps max_tool_calls fuel l
      ])
  turn-Ends fuel n (finish o) rest k h = k
  turn-Ends fuel n (crash e) rest k h = tt
  turn-Ends fuel n (go_on l) rest k h = rest l k.0 (omega (arith, k.1))

  -- One more unit of fuel than the steps that are left is enough.
  pub run_loop-Exits :
      (fuel : ℕ) (l : Loop H S)
      → IsRunning max_steps max_tool_calls l
      → pos_part max_steps < length l.action_trace + fuel
      → Ends fuel l
  unfolding run_loop
  run_loop-Exits zero l r h = absurd (omega (arith, r.steps, r.some_steps))
  run_loop-Exits (suc fuel) l r h =
      turn-Ends fuel (length l.action_trace) (iteration agent task world max_steps max_tool_calls l)
        (run_loop-Exits fuel) (iteration-Kept agent task world max_steps max_tool_calls l r) h
