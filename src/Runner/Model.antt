-- ===== src/Runner/Model.antt =====
-- The data of a run, of agent_bench/runner/runner.py. The agent, the task's action module and its
-- validator are loaded at run time, so they are parameters; so are the clock and the text of an
-- exception. Left out of an entry: the time stamp and the measured latency.
use tracecore.Prelude.{
  ℕ, String, Bool, false, ◌&&◌, Option, none, some, List, [], ◌∷◌, ◌==◌, map, if◌then◌else◌,
}
use tracecore.Prelude.Int.{ℤ}
use tracecore.Prelude.Dict.{Dict, get, keys}
use tracecore.Prelude.Text.{empty, ◌◃◌}
use tracecore.Value.{Value, null, bool, str, list, dict, obj, truthy, get_or_null, to_list, to_dict}
use tracecore.Exc.{Exc, Result, ok, raised, type_error}
use tracecore.Budgets.{Budgets}
use tracecore.Env.State
use tracecore.Env.Guard.{Guarded, Audit}
use tracecore.Runner.Action.{Schema}

-- An agent, over the type of its state.
pub record Agent (S : Type 0) : Type 0 where
  pub observe : Value → S → Result (Unit {0}) × S
  pub act : S → Result Value × S
  pub llm_trace : S → Value

-- A task: `call t args` is `getattr(actions_mod, t)(**args)`.
pub record Task (H : Type 0) : Type 0 where
  pub id : String
  pub description : String
  pub schema : Schema
  pub call : String → Dict Value → Guarded H → Result Value × Guarded H
  pub validate : Guarded H → Result (Dict Value) × Guarded H

-- What a run depends on besides the agent and the task: the clock at the iteration that follows
-- so many recorded steps, `str(exc)`, and the switch that drops the trace of the model.
pub record World : Type 0 where
  pub clock : ℕ → ℕ
  pub describe : Exc → String
  pub include_llm_trace : Bool

pub record Entry : Type 0 where
  pub step : ℤ
  pub observation : Value
  pub action : Value
  pub result : Value
  pub io_audit : List Audit
  pub llm_trace : Value
  pub steps_after : ℤ
  pub tool_calls_after : ℤ
  pub tool_calls_delta : ℕ
  pub error : Value

-- The arguments of `_result_payload` that differ between the places that return.
pub record Outcome : Type 0 where
  pub success : Bool
  pub termination_reason : String
  pub failure_reason : Option String
  pub failure_type : Option String
  pub steps_used : ℤ
  pub tool_calls_used : ℤ
  pub action_trace : List Entry
  pub validator : Option (Dict Value)

pub record Loop (H S : Type 0) : Type 0 where
  pub budget : Budgets
  pub guarded : Guarded H
  pub agent : S
  pub last_action : Value
  pub last_result : Value
  pub action_trace : List Entry

-- One iteration returns a result, lets an exception through, or goes on.
pub data Next (H S : Type 0) : Type 0 where
  finish : Outcome → Next H S
  crash : Exc → Next H S
  go_on : Loop H S → Next H S

pub data Exit : Type 0 where
  returned : Outcome → Exit
  crashed : Exc → Exit
  out_of_fuel : Exit

-- The items that a `for` over a value goes through.
abbrev characters : String → List Value
characters empty = []
characters (c ◃ s) = str (c ◃ empty) ∷ characters s

abbrev pub iterate : Value → Option (List Value)
iterate (list vs) = some (to_list vs)
iterate (str s) = some (characters s)
iterate (dict f) = some (map str (keys (to_dict f)))
iterate _ = none

abbrev texts_of : List Value → Option (List String)
texts_of [] = some []
texts_of (str s ∷ vs) = elim (texts_of vs) [ none ↦ none | some ts ↦ some (s ∷ ts) ]
texts_of (v ∷ vs) = none

abbrev listed_texts : Value → Option (List String)
listed_texts v = elim (iterate v) [ none ↦ none | some vs ↦ texts_of vs ]

-- `d.get("files", [])`
abbrev pub listed_files : Dict Value → Option (List String)
listed_files d = elim (get "files" d) [ none ↦ some [] | some v ↦ listed_texts v ]

abbrev pub error_of : Value → Value
error_of (dict f) = get_or_null "error" (to_dict f)
error_of _ = null

-- `env.mark_seen(result.get("files", []))`, after a `list_dir` that succeeded.
unfoldable pub mark_listed :
    {H : Type 0} → String → Value → Guarded H → Result (Unit {0}) × Guarded H
mark_listed kind (dict f) g =
    if kind == "list_dir" && truthy (get_or_null "ok" (to_dict f))
    then elim (listed_files (to_dict f)) [
      | none ↦ (raised (type_error "files"), g)
      | some paths ↦ let (r, env) = State.mark_seen paths g.env in (r, record g { env = env })
    ]
    else (ok tt, g)
mark_listed kind _ g = (ok tt, g)

-- A failed result: termination reason, failure reason and type, steps and tool calls used, trace.
abbrev pub fail : String → String → String → ℤ → ℤ → List Entry → Outcome
fail termination reason kind steps tools trace = record {
  success = false;
  termination_reason = termination;
  failure_reason = some reason;
  failure_type = some kind;
  steps_used = steps;
  tool_calls_used = tools;
  action_trace = trace;
  validator = none;
}

-- What the agent was shown at a step, and what it answered.
pub record Turn : Type 0 where
  pub step : ℤ
  pub observation : Value
  pub action : Value

-- The entry of an action that was not carried out: it uses a step and no tool call.
abbrev pub refused_entry : Turn → String → String → List Audit → Budgets → Entry
refused_entry turn message error audit budget = record {
  step = turn.step;
  observation = turn.observation;
  action = turn.action;
  result = obj (("ok", bool false) ∷ ("error", str message) ∷ []);
  io_audit = audit;
  llm_trace = null;
  steps_after = budget.steps_remaining;
  tool_calls_after = budget.tool_calls_remaining;
  tool_calls_delta = 0;
  error = str error;
}
