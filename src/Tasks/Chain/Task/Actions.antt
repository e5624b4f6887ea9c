-- ===== src/Tasks/Chain/Task/Actions.antt =====
-- actions.py of the task rate_limited_chain. An action is called with its arguments by keyword.
use tracecore.Prelude.{
  String, Bool, true, false, not, Option, none, some, List, [], ◌∷◌, ◌==◌, if◌then◌else◌, all, any,
  map,
}
use tracecore.Prelude.Int.{ℤ, pos, leb_ℤ}
use tracecore.Prelude.Dict.{Dict, get, put, keys}
use tracecore.Prelude.Text.{◌<>◌, of_nat}
use tracecore.Value.{Value, null, bool, int, str, dict, obj, to_dict}
use tracecore.Value.Equality.{value_eq}
use tracecore.Exc.{Result, ok, raised, ◌>>=◌, key_error, runtime_error, type_error, attribute_error}
use tracecore.Env.Guard.{Guarded, Frame, get_hidden_state, set_agent_output, read_file}
use tracecore.Runner.Action.{Schema}
use tracecore.Runner.Model.{Task}
use tracecore.Tasks.Chain.{Service, advance, call, status}
use tracecore.Tasks.Chain.Task.{
  Hidden, service, payload, text, flag, service_key, template_key, payload_key, output_key,
  readme_path, validate,
}

abbrev pub refusal : String → String → Value
refusal error message =
    obj (("ok", bool false) ∷ ("error", str error) ∷ ("message", str message) ∷ [])

-- `_coerce_payload`, of a value
abbrev pub as_object : Option Value → Option (Dict Value)
as_object (some (dict f)) = some (to_dict f)
as_object v = none

abbrev pub coerce_payload : (String → Option Value) → Value → Option (Dict Value)
coerce_payload load (dict f) = some (to_dict f)
coerce_payload load (str s) = as_object (load s)
coerce_payload load v = none

abbrev pub is_none : Value → Bool
is_none null = true
is_none v = false

abbrev pub refused_payload : Value → Option (Dict Value) → Bool
refused_payload v none = not (is_none v)
refused_payload v (some d) = false

-- An endpoint that is no text is unknown, as "" is.
abbrev pub endpoint_of : Value → String
endpoint_of (str s) = s
endpoint_of v = ""

-- The state with the service as a call left it.
abbrev pub with_service : Service → Guarded Hidden → Guarded Hidden
with_service s g = record g {
  env = record g.env { hidden_state = put service_key (service s) g.env.hidden_state };
}

-- `_get_service`
abbrev pub service_in : Option Hidden → Result Service
service_in none = raised (runtime_error "MockChainAPI missing from hidden state")
service_in (some (service s)) = ok s
service_in (some h) = raised (attribute_error "service")

abbrev pub texts_value : Dict String → Value
texts_value p = obj (map (λ e. (e.0, str (e.1))) p)

abbrev pub hidden_value : Hidden → Value
hidden_value (text t) = str t
hidden_value (flag b) = bool b
hidden_value (payload p) = texts_value p
hidden_value (service s) = null

-- The parameters of the actions, in the order of their names.
abbrev pub schema : Schema
schema =
    ("call_api", "endpoint" ∷ "payload" ∷ [])
    ∷ ("get_handshake_template", [])
    ∷ ("get_required_payload", [])
    ∷ ("inspect_status", [])
    ∷ ("read_instructions", [])
    ∷ ("set_output", "key" ∷ "value" ∷ [])
    ∷ ("wait", "steps" ∷ [])
    ∷ []

-- The values that the call gives the parameters: a missing or an unknown keyword raises.
abbrev pub knows : List String → Dict Value → Bool
knows params args = all (λ k. any (λ p. p == k) params) (keys args)

abbrev pub argument : String → Dict Value → Result Value
argument key args = elim (get key args) [ none ↦ raised (type_error key) | some v ↦ ok v ]

abbrev pub argument_or : String → Value → Dict Value → Value
argument_or key default args = elim (get key args) [ none ↦ default | some v ↦ v ]

-- What an action does once its arguments are bound, or the exception.
abbrev pub bound :
    {A : Type 0}
    → Result A
    → Guarded Hidden
    → (A → Result Value × Guarded Hidden)
    → Result Value × Guarded Hidden
bound (raised e) g f = (raised e, g)
bound (ok a) g f = f a

abbrev pub template_reply : Option Hidden → Value
template_reply none = refusal "template_missing" "handshake template unavailable"
template_reply (some h) = obj (("ok", bool true) ∷ ("template", hidden_value h) ∷ [])

abbrev pub payload_reply : Option Hidden → Result Value
payload_reply (some (payload (e ∷ p))) =
    ok (obj (("ok", bool true) ∷ ("payload_template", texts_value (e ∷ p)) ∷ []))
payload_reply (some (service s)) = raised (type_error "dict")
payload_reply (some (text t)) =
    if t == "" then raised (runtime_error "payload") else raised (type_error "dict")
payload_reply (some (flag true)) = raised (type_error "dict")
payload_reply h = raised (runtime_error "required payload missing from hidden state")

-- A `KeyError` of the file is answered, any other exception goes through.
abbrev pub read_reply : Result String × Guarded Hidden → Result Value × Guarded Hidden
read_reply (ok content, g) = (ok (obj (("ok", bool true) ∷ ("readme", str content) ∷ [])), g)
read_reply (raised (key_error t), g) =
    (ok (obj (("ok", bool false) ∷ ("error", str "missing_readme") ∷ [])), g)
read_reply (raised e, g) = (raised e, g)

abbrev pub stored_reply : Result (Unit {0}) × Guarded Hidden → Result Value × Guarded Hidden
stored_reply (ok _, g) = (ok (obj (("ok", bool true) ∷ [])), g)
stored_reply (raised e, g) = (raised e, g)

abbrev pub int_text : ℤ → String
int_text (pos n) = of_nat n
int_text n = ""

module _ (stack : List Frame) (load : String → Option Value) where
  abbrev pub get_service : Guarded Hidden → Result Service
  get_service g = do h ← get_hidden_state stack service_key g; service_in h

  abbrev pub replied : Guarded Hidden → Dict Value × Service → Result Value × Guarded Hidden
  replied g (reply, s) = (ok (obj reply), with_service s g)

  abbrev pub call_api : Value → Value → Guarded Hidden → Result Value × Guarded Hidden
  call_api endpoint v g = bound (get_service g) g λ s.
      if refused_payload v (coerce_payload load v)
      then (ok (refusal "bad_request" "payload must be JSON object"), g)
      else replied g (call (endpoint_of endpoint) (coerce_payload load v) s)

  abbrev pub waited : String → Guarded Hidden → Result Service → Result Value × Guarded Hidden
  waited shown g (ok s) = (
    ok (
        obj (
          ("ok", bool true)
          ∷ ("message", str ("advanced virtual time by " <> shown <> " steps"))
          ∷ [])),
    with_service s g,
  )
  waited shown g (raised e) = (raised e, g)

  abbrev pub wait_steps : ℤ → String → Guarded Hidden → Result Value × Guarded Hidden
  wait_steps n shown g =
      if leb_ℤ n (pos 0)
      then (ok (refusal "invalid_args" "steps must be > 0"), g)
      else bound (get_service g) g λ s. waited shown g (advance n s)

  -- `True` is an `int`, and is shown as it is.
  abbrev pub wait_for : Value → Guarded Hidden → Result Value × Guarded Hidden
  wait_for (int n) g = wait_steps n (int_text n) g
  wait_for (bool true) g = wait_steps (pos 1) "True" g
  wait_for (bool false) g = wait_steps (pos 0) "False" g
  wait_for v g = (ok (refusal "invalid_args" "steps must be int"), g)

  abbrev pub set_output : Value → Value → Guarded Hidden → Result Value × Guarded Hidden
  set_output key v g =
      if not (value_eq key (str output_key))
      then (ok (refusal "invalid_output_key" "Only ACCESS_TOKEN may be set in this task."), g)
      else stored_reply (set_agent_output stack output_key v g)

  -- The actions on their arguments.
  abbrev pub call_with : Dict Value → Guarded Hidden → Result Value × Guarded Hidden
  call_with args g =
      bound (argument "endpoint" args) g
        λ endpoint. call_api endpoint (argument_or "payload" null args) g

  abbrev pub get_handshake_template : Guarded Hidden → Result Value × Guarded Hidden
  get_handshake_template g =
      bound (get_hidden_state stack template_key g) g λ h. (ok (template_reply h), g)

  abbrev pub get_required_payload : Guarded Hidden → Result Value × Guarded Hidden
  get_required_payload g = bound (get_hidden_state stack payload_key g) g λ h. (payload_reply h, g)

  abbrev pub inspect_status : Guarded Hidden → Result Value × Guarded Hidden
  inspect_status g =
      bound (get_service g) g
        λ s. (ok (obj (("ok", bool true) ∷ ("status", obj (status s)) ∷ [])), g)

  abbrev pub read_instructions : Guarded Hidden → Result Value × Guarded Hidden
  read_instructions g = read_reply (read_file stack readme_path g)

  abbrev pub output_with : Dict Value → Guarded Hidden → Result Value × Guarded Hidden
  output_with args g =
      bound (argument "key" args) g λ key. bound (argument "value" args) g λ v. set_output key v g

  abbrev pub wait : Dict Value → Guarded Hidden → Result Value × Guarded Hidden
  wait args g = wait_for (argument_or "steps" (int (pos 1)) args) g

  abbrev pub perform : String → Dict Value → Guarded Hidden → Result Value × Guarded Hidden
  perform kind args g =
      if kind == "call_api"
      then call_with args g
      else if kind == "get_handshake_template"
      then get_handshake_template g
      else if kind == "get_required_payload"
      then get_required_payload g
      else if kind == "inspect_status"
      then inspect_status g
      else if kind == "read_instructions"
      then read_instructions g
      else if kind == "set_output"
      then output_with args g
      else wait args g

  abbrev pub parameters : String → Option (List String)
  parameters kind = get kind schema

  -- A keyword that the action does not have raises.
  unfoldable pub act : String → Dict Value → Guarded Hidden → Result Value × Guarded Hidden
  act kind args g = elim (parameters kind) [
    | none ↦ (raised (attribute_error kind), g)
    | some params ↦ if knows params args then perform kind args g else (raised (type_error kind), g)
  ]

  abbrev pub chain_task : Task Hidden
  chain_task = record {
    id = "rate_limited_chain";
    description =
        "Complete a multi-step handshake with a chained API, respect retry windows, and retrieve the ACCESS_TOKEN without tripping the rate limiter.";
    schema = schema;
    call = act;
    validate = validate stack;
  }
