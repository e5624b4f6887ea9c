-- ===== src/Runner/Run/Carried.antt =====
-- A property of a task's environment, from the setup to the verdict.
use tracecore.Prelude.{◌≡◌, refl, false, List, []}
use tracecore.Prelude.Int.{ℤ}
use tracecore.Exc.{Result, ok, raised}
use tracecore.Env.State.{Environment, new_environment}
use tracecore.Env.Guard.{Guarded, new_guarded}
use tracecore.Runner.Model.{World, Entry, Exit}
use tracecore.Runner.Loop.Carried.{IsCarried, Ends, run_loop-Ends}
use tracecore.Runner.Run.{Loaded, start, reset_done, setup_done, guarded_by, run}

module _ {H S : Type 0} (p : Loaded H S) (world : World) (seed : ℤ)
    (P : List Entry → Environment H → Type 0) (carried : IsCarried p.task P) where
  abbrev pub Approved : Exit → Type 0
  Approved = Ends p.agent p.task world p.max_steps p.max_tool_calls P carried

  reset_done-Approved :
      (g : Guarded H) (r : Result (Unit {0}) × S) → P [] g.env → Approved (reset_done p world g r)
  unfolding start
  reset_done-Approved g (raised e, s) h = tt
  reset_done-Approved g (ok _, s) h =
      run_loop-Ends p.agent p.task world p.max_steps p.max_tool_calls P carried _ _ h

  setup_done-Approved :
      (r : Result (Unit {0}) × Guarded H)
      → (r.0 ≡ ok tt → P [] (r.1).env)
      → Approved (setup_done p world r)
  setup_done-Approved (raised e, g) h = tt
  setup_done-Approved (ok tt, g) h = reset_done-Approved g _ (h refl)

  guarded_by-Approved :
      (r : Result (Guarded H))
      → ((g : Guarded H) → r ≡ ok g → (p.setup seed g).0 ≡ ok tt → P [] ((p.setup seed g).1).env)
      → Approved (guarded_by p world seed r)
  guarded_by-Approved (raised e) h = tt
  guarded_by-Approved (ok g) h = setup_done-Approved (p.setup seed g) (h g refl)

  -- Let the setup leave an environment with a property of it and the empty trace, and the task's
  -- actions and its validator keep it. Then a run that reports success was approved by the validator
  -- in an environment that has the property with the trace of the run, whatever the agent and the
  -- clock did.
  pub run-Approved :
      ((g : Guarded H)
        → new_guarded new_environment p.filesystem_roots p.network_hosts false ≡ ok g
        → (p.setup seed g).0 ≡ ok tt
        → P [] ((p.setup seed g).1).env)
      → Approved (run p world seed)
  unfolding run
  run-Approved h = guarded_by-Approved _ h
