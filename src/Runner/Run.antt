-- ===== src/Runner/Run.antt =====
-- `run` of agent_bench/runner/runner.py: what is set up before the loop, and the loop.
pub mod Sound
pub mod Carried
use tracecore.Prelude.{ℕ, suc, String, Bool, false, Option, none, List, [], ◌∷◌, map}
use tracecore.Prelude.Int.{ℤ, pos_part}
use tracecore.Prelude.Dict.{Dict}
use tracecore.Value.{Value, null, str, list, dict, of_list, of_dict, obj}
use tracecore.Exc.{Exc, Result, ok, raised}
use tracecore.Budgets.{new_budgets}
use tracecore.Env.State.{new_environment}
use tracecore.Env.Guard.{Guarded, new_guarded}
use tracecore.Runner.Action.{Schema}
use tracecore.Runner.Model.{Agent, Task, World, Loop, Exit, crashed}
use tracecore.Runner.Loop.{run_loop}

-- What `load_task` and `load_agent` give besides the task's actions and validator and the agent's
-- calls: the setup, the sandbox, the budgets, the reset. The two budgets are those of
-- `int(budgets.get(..., 0))`, and the sandbox is the manifest's value.
pub record Loaded (H S : Type 0) : Type 0 where
  pub task : Task H
  pub agent : Agent S
  pub setup : ℤ → Guarded H → Result (Unit {0}) × Guarded H
  pub reset : Value → Result (Unit {0}) × S
  pub filesystem_roots : List String
  pub network_hosts : List String
  pub sandbox : Value
  pub budgets : Value
  pub max_steps : ℤ
  pub max_tool_calls : ℤ

-- The schema as a value.
unfoldable pub schema_value : Schema → Dict Value
schema_value [] = []
schema_value ((name, params) ∷ s) = (name, list (of_list (map str params))) ∷ schema_value s

module _ {H S : Type 0} where
  -- `task_spec`, which the agent is reset with.
  unfoldable pub task_spec : Loaded H S → Value
  unfolding schema_value
  task_spec p = obj (
      ("id", str p.task.id)
      ∷ ("description", str p.task.description)
      ∷ ("budgets", p.budgets)
      ∷ ("actions", dict (of_dict (schema_value p.task.schema)))
      ∷ ("sandbox", p.sandbox)
      ∷ [])

  -- The first head of the loop. No timeout is given to the budgets.
  unfoldable pub start : Loaded H S → World → Guarded H → S → Loop H S
  start p world g s = record {
    budget = new_budgets p.max_steps p.max_tool_calls none (world.clock 0);
    guarded = g;
    agent = s;
    last_action = null;
    last_result = null;
    action_trace = [];
  }

  abbrev pub reset_done : Loaded H S → World → Guarded H → Result (Unit {0}) × S → Exit
  reset_done p world g (raised e, s) = crashed e
  reset_done p world g (ok _, s) =
      run_loop p.agent p.task world p.max_steps p.max_tool_calls (suc (pos_part p.max_steps))
        (start p world g s)

  abbrev pub setup_done : Loaded H S → World → Result (Unit {0}) × Guarded H → Exit
  setup_done p world (raised e, g) = crashed e
  setup_done p world (ok _, g) = reset_done p world g (p.reset (task_spec p))

  abbrev pub guarded_by : Loaded H S → World → ℤ → Result (Guarded H) → Exit
  guarded_by p world seed (raised e) = crashed e
  guarded_by p world seed (ok g) = setup_done p world (p.setup seed g)

  -- The fuel is one more than the steps of the budget.
  unfoldable pub run : Loaded H S → World → ℤ → Exit
  run p world seed =
      guarded_by p world seed (new_guarded new_environment p.filesystem_roots p.network_hosts false)
