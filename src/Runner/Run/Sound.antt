-- ===== src/Runner/Run/Sound.antt =====
-- What a run ends with.
use tracecore.Prelude.{refl, arith}
use tracecore.Prelude.Int.{ℤ, pos, ◌≤ℤ◌}
use tracecore.Exc.{Result, ok, raised}
use tracecore.Env.Guard.{Guarded}
use tracecore.Runner.Model.{World, Outcome, Exit, returned, crashed, out_of_fuel}
use tracecore.Runner.Loop.Justified.{IsJustified}
use tracecore.Runner.Loop.Invariant.{IsRunning, IsWithin}
use tracecore.Runner.Loop.Invariant.Total.{Exits, run_loop-Exits}
use tracecore.Runner.Run.{Loaded, start, reset_done, setup_done, guarded_by, run}

module _ {H S : Type 0} (p : Loaded H S) (world : World) (steps : pos 0 ≤ℤ p.max_steps)
    (tool_calls : pos 0 ≤ℤ p.max_tool_calls) where
  abbrev Good : Exit → Type 0
  Good = Exits (λ o. IsWithin p.max_steps p.max_tool_calls o × IsJustified p.task o)

  start-IsRunning :
      (g : Guarded H) (s : S) → IsRunning p.max_steps p.max_tool_calls (start p world g s)
  unfolding start
  start-IsRunning g s = record {
    steps = omega arith;
    tool_calls = omega arith;
    some_steps = steps;
    some_tool_calls = tool_calls;
    no_timeout = refl;
    all_charged = refl;
    numbered = tt;
  }

  reset_done-Good : (g : Guarded H) (r : Result (Unit {0}) × S) → Good (reset_done p world g r)
  unfolding start
  reset_done-Good g (raised e, s) = tt
  reset_done-Good g (ok _, s) =
      run_loop-Exits p.agent p.task world p.max_steps p.max_tool_calls _ _ (start-IsRunning g s)
        (omega arith)

  setup_done-Good : (r : Result (Unit {0}) × Guarded H) → Good (setup_done p world r)
  setup_done-Good (raised e, g) = tt
  setup_done-Good (ok _, g) = reset_done-Good g _

  guarded_by-Good : (seed : ℤ) (r : Result (Guarded H)) → Good (guarded_by p world seed r)
  guarded_by-Good seed (raised e) = tt
  guarded_by-Good seed (ok g) = setup_done-Good _

Exits-map :
    {P Q : Outcome → Type 0} → ((o : Outcome) → P o → Q o) → (e : Exit) → Exits P e → Exits Q e
Exits-map f (returned o) h = f o h
Exits-map f (crashed e) h = tt
Exits-map f out_of_fuel h = h

run-IsSound :
    {H S : Type 0} (p : Loaded H S) (world : World) (seed : ℤ)
    → pos 0 ≤ℤ p.max_steps
    → pos 0 ≤ℤ p.max_tool_calls
    → Exits (λ o. IsWithin p.max_steps p.max_tool_calls o × IsJustified p.task o) (run p world seed)
unfolding run
run-IsSound p world seed steps tool_calls = guarded_by-Good p world steps tool_calls seed _

-- With budgets that are not negative a run ends within its fuel, whatever the agent, the task and
-- the clock do: an exception goes through, or there is a result whose steps and tool calls lie
-- within the budgets. Its tool calls are those that the entries of its trace were charged, one for
-- each entry but perhaps for one entry, and its steps are the entries, or one more. The entries are
-- numbered from one, and each says what was left of both budgets after it.
pub run-IsWithin :
    {H S : Type 0} (p : Loaded H S) (world : World) (seed : ℤ)
    → pos 0 ≤ℤ p.max_steps
    → pos 0 ≤ℤ p.max_tool_calls
    → Exits (λ o. IsWithin p.max_steps p.max_tool_calls o) (run p world seed)
run-IsWithin p world seed steps tool_calls =
    Exits-map (λ o h. h.0) (run p world seed) (run-IsSound p world seed steps tool_calls)

-- With budgets that are not negative a run ends within its fuel, and a result of it is justified:
-- a success has at least one step and the word of the validator, a failure has a reason and a type
-- of the taxonomy.
pub run-IsJustified :
    {H S : Type 0} (p : Loaded H S) (world : World) (seed : ℤ)
    → pos 0 ≤ℤ p.max_steps
    → pos 0 ≤ℤ p.max_tool_calls
    → Exits (λ o. IsJustified p.task o) (run p world seed)
run-IsJustified p world seed steps tool_calls =
    Exits-map (λ o h. h.1) (run p world seed) (run-IsSound p world seed steps tool_calls)
