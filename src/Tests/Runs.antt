-- ===== src/Tests/Runs.antt =====
-- A run of an agent that calls one action until the validator accepts.
use tracecore.Prelude.{ℕ, suc, refl, arith, true, false, [], ◌∷◌}
use tracecore.Prelude.Int.{pos}
use tracecore.Prelude.Dict.{get}
use tracecore.Runner.Action.{validate_action}
use tracecore.Runner.Action.Callable.{IsCallable, validate_action_iff}
use tracecore.Value.{Value, to_dict, get_or_null, null, bool, str, obj}
use tracecore.Exc.{ok}
use tracecore.Runner.Model.{Agent, Task, World}
use tracecore.Runner.Loop.Justified.{IsJustified}
use tracecore.Runner.Loop.Invariant.{IsWithin}
use tracecore.Runner.Loop.Invariant.Total.{Exits}
use tracecore.Runner.Run.{Loaded, run}
use tracecore.Runner.Run.Sound.{run-IsWithin, run-IsJustified}

-- Its state counts its answers.
abbrev caller : Agent ℕ
caller = record {
  observe = λ o n. (ok tt, n);
  act = λ n. (ok (obj (("type", str "ping") ∷ ("args", obj []) ∷ [])), suc n);
  llm_trace = λ n. null;
}

-- The action writes an output, and the validator wants one.
abbrev ping_task : Task ℕ
ping_task = record {
  id = "ping";
  description = "Ping once.";
  schema = ("ping", []) ∷ [];
  call = λ t args g. (
    ok (obj (("ok", bool true) ∷ [])),
    record g { env = record g.env { agent_output = ("pong", str t) ∷ [] } },
  );
  validate = λ g. elim g.env.agent_output [
    | [] ↦ (ok (("ok", bool false) ∷ []), g)
    | o ∷ os ↦ (ok (("ok", bool true) ∷ []), g)
  ];
}

abbrev world : World
world = record { clock = λ n. n; describe = λ e. "boom"; include_llm_trace = false }

abbrev demo : Loaded ℕ ℕ
demo = record {
  task = ping_task;
  agent = caller;
  setup = λ seed g. (ok tt, g);
  reset = λ spec. (ok tt, 0);
  filesystem_roots = "/app" ∷ [];
  network_hosts = [];
  sandbox = obj [];
  budgets = obj [];
  max_steps = pos 5;
  max_tool_calls = pos 3;
}

run-IsWithin_example : Exits (λ o. IsWithin (pos 5) (pos 3) o) (run demo world (pos 7))
run-IsWithin_example = run-IsWithin demo world (pos 7) (omega arith) (omega arith)

run-IsJustified_example : Exits (λ o. IsJustified ping_task o) (run demo world (pos 7))
run-IsJustified_example = run-IsJustified demo world (pos 7) (omega arith) (omega arith)

abbrev ping : Value
ping = obj (("type", str "ping") ∷ [])

validate_action_iff_example : IsCallable ping (("ping", []) ∷ [])
unfolding validate_action get_or_null get to_dict
validate_action_iff_example = (validate_action_iff ping (("ping", []) ∷ [])).0 refl
