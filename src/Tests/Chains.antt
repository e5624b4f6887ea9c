-- ===== src/Tests/Chains.antt =====
-- A run of rate_limited_chain by an agent that opens a handshake, confirms it, waits, asks for the
-- token twice and stores it.
use tracecore.Prelude.{◌≡◌, refl, Bool, true, false, none, String, List, [], ◌∷◌}
use tracecore.Prelude.Int.{pos}
use tracecore.Prelude.Dict.{Dict}
use tracecore.Value.{Value, null, int, str, obj}
use tracecore.Exc.{ok, raised, runtime_error}
use tracecore.Env.Guard.{Frame}
use tracecore.Runner.Model.{Agent, World, Exit, returned, crashed, out_of_fuel}
use tracecore.Runner.Loop.Invariant.Total.{Exits}
use tracecore.Runner.Run.{run}
use tracecore.Prelude.Text.{of_nat}
use tracecore.Tasks.Chain.Task.{code_of}
use tracecore.Tasks.Chain.Task.Earned.{IsEarned, chain_run, run-IsEarned}

abbrev action : String → Dict Value → Value
action kind args = obj (("type", str kind) ∷ ("args", obj args) ∷ [])

abbrev token : Value
token = action "call_api" (
    ("endpoint", str "/token")
    ∷ (
      "payload",
      obj (
          ("client_id", str "agent_bench_chain")
          ∷ ("nonce", str "1007")
          ∷ ("handshake_id", str "hs-0")
          ∷ []),
    )
    ∷ [])

abbrev script : List Value
script =
    action "call_api" (("endpoint", str "/handshake") ∷ ("payload", null) ∷ [])
    ∷ action "call_api" (
        ("endpoint", str "/handshake_commit")
        ∷ (
          "payload",
          obj (("handshake_id", str "hs-0") ∷ ("response", str "CHAIN-hs-0-CHAIN1007") ∷ []),
        )
        ∷ [])
    ∷ action "wait" (("steps", int (pos 3)) ∷ [])
    ∷ token
    ∷ token
    ∷ action "set_output" (("key", str "ACCESS_TOKEN") ∷ ("value", str "ACCESS-100007") ∷ [])
    ∷ []

-- Its state is what is left of the script.
abbrev reader : Agent (List Value)
reader = record {
  observe = λ o s. (ok tt, s);
  act = λ s. elim s [ [] ↦ (raised (runtime_error "end of script"), []) | v ∷ vs ↦ (ok v, vs) ];
  llm_trace = λ s. null;
}

abbrev stack : List Frame
stack = record { module_name = "tasks.rate_limited_chain.actions"; filename = "actions.py" } ∷ []

abbrev world : World
world = record { clock = λ n. n; describe = λ e. "error"; include_llm_trace = false }

run-IsEarned_example :
    Exits
      (λ o. o.success ≡ true → IsEarned (pos 7) o.action_trace)
      (run (chain_run stack (λ t. none) reader (λ spec. (ok tt, script))) world (pos 7))
run-IsEarned_example = run-IsEarned stack (λ t. none) reader (λ spec. (ok tt, script)) world (pos 7)

abbrev success_of : Exit → Bool
success_of (returned o) = o.success
success_of (crashed e) = false
success_of out_of_fuel = false

-- The run succeeds.
run-success :
    success_of (run (chain_run stack (λ t. none) reader (λ spec. (ok tt, script))) world (pos 7))
    ≡ true
unfolding run tracecore.Env.Guard.new_guarded tracecore.Env.Path.normalize_fs_root
    tracecore.Prelude.Text.is_infix tracecore.Env.Path.as_posix tracecore.Prelude.Text.join
    tracecore.Env.Path.parts tracecore.Prelude.Text.split tracecore.Prelude.Text.ends_with
    tracecore.Tasks.Chain.Task.setup tracecore.Env.Guard.set_hidden_state
    tracecore.Env.Guard.ensure_allowed tracecore.Env.Guard.write_file
    tracecore.Env.Guard.ensure_fs_allowed tracecore.Env.Path.under_root
    tracecore.Env.State.write_file tracecore.Env.Guard.mark_seen tracecore.Env.Guard.record_audit
    tracecore.Budgets.consume_step tracecore.Budgets.consume_tool_call tracecore.Budgets.timed_out
    tracecore.Env.Guard.begin_step tracecore.Env.Guard.consume_audit tracecore.Env.Guard.file_op
    tracecore.Env.Guard.forward_slashes tracecore.Env.Network.drop_last
    tracecore.Env.Network.new_guard tracecore.Env.Network.normalize_host
    tracecore.Env.Path.normalize_path tracecore.Env.State.add tracecore.Env.State.mark_seen
    tracecore.Env.State.set_hidden_state tracecore.Env.State.visible_state
    tracecore.Prelude.Dict.get tracecore.Prelude.Dict.keys tracecore.Prelude.Dict.put
    tracecore.Prelude.Sort.insert_sorted tracecore.Prelude.Sort.sort_by
    tracecore.Prelude.Sort.text_leb tracecore.Prelude.Text.is_space tracecore.Prelude.Text.lower
    tracecore.Prelude.Text.lstrip_by tracecore.Prelude.Text.of_nat tracecore.Prelude.Text.rstrip_by
    tracecore.Prelude.Text.starts_with tracecore.Prelude.Text.strip
    tracecore.Runner.Action.action_args tracecore.Runner.Action.action_type
    tracecore.Runner.Action.validate_action tracecore.Runner.Loop.dispatch
    tracecore.Runner.Loop.iteration tracecore.Runner.Loop.observation tracecore.Runner.Loop.run_loop
    tracecore.Runner.Loop.step_number tracecore.Runner.Model.mark_listed
    tracecore.Runner.Run.schema_value tracecore.Runner.Run.start tracecore.Runner.Run.task_spec
    tracecore.Value.as_dict tracecore.Value.get_or_null tracecore.Value.to_dict
    tracecore.Value.to_list tracecore.Value.truthy tracecore.Tasks.Chain.Task.Actions.act
    tracecore.Env.Guard.get_hidden_state tracecore.Env.State.get_hidden_state
    tracecore.Runner.Loop.judge tracecore.Tasks.Chain.Task.validate
    tracecore.Env.Guard.get_agent_output tracecore.Tasks.Chain.call
    tracecore.Env.State.get_agent_output tracecore.Tasks.Chain.advance
    tracecore.Env.Guard.set_agent_output tracecore.Env.State.set_agent_output
    tracecore.Prelude.Int.◌-ℤ◌
run-success = refl

-- The digits of a number with more than one of them.
code_of-seven : code_of (pos 7) ≡ "CHAIN1007"
unfolding of_nat
code_of-seven = refl
