-- ===== src/Tasks/Chain/Task.antt =====
-- The task rate_limited_chain: tasks/rate_limited_chain/setup.py, actions.py and validate.py. The
-- call stack of an action, which the guard looks at, and `json.loads` are arguments. The service in
-- the hidden state is one object: a call that changes it is written back there.
pub mod Actions
mod Played
mod Kept
mod Acted
mod SetUp
pub mod Earned
use tracecore.Prelude.{
  ℕ, suc, ◌+◌, ◌-◌, ◌%◌, String, Bool, true, false, not, ◌&&◌, ◌||◌, Option, none, some, List, [],
  ◌∷◌, ◌==◌, if◌then◌else◌, is_empty, any, all, map,
}
use tracecore.Prelude.Int.{ℤ, pos, negsuc, leb_ℤ}
use tracecore.Prelude.Dict.{Dict, get, put, keys, contains}
use tracecore.Prelude.Text.{◌<>◌, of_nat}
use tracecore.Value.{
  Value, null, bool, int, str, list, dict, obj, of_dict, to_dict, truthy, get_or_null,
}
use tracecore.Value.Equality.{value_eq}
use tracecore.Exc.{Result, ok, raised, ◌>>=◌, runtime_error, type_error, attribute_error, key_error}
use tracecore.Env.State.{Environment}
use tracecore.Env.Guard.{
  Guarded, Frame, set_hidden_state, get_hidden_state, set_agent_output, get_agent_output,
  write_file, read_file, mark_seen,
}
use tracecore.Runner.Model.{Task}
use tracecore.Tasks.Chain.{Service, new_service, advance, call, status}

-- What the task keeps in the hidden state.
pub data Hidden : Type 0 where
  service : Service → Hidden
  payload : Dict String → Hidden
  text : String → Hidden
  flag : Bool → Hidden

abbrev pub service_key : String
service_key = "rate_limited_chain_service"

abbrev pub template_key : String
template_key = "rate_limited_chain_handshake_template"

abbrev pub payload_key : String
payload_key = "rate_limited_chain_required_payload"

abbrev pub secret_key : String
secret_key = "rate_limited_chain_secret"

abbrev pub output_key : String
output_key = "ACCESS_TOKEN"

abbrev pub readme_path : String
readme_path = "/app/CHAIN_README.md"

-- `seed % m`, which is not negative, for a positive modulus.
abbrev pub remainder : ℤ → ℕ → ℕ
remainder (pos n) m = n % m
remainder (negsuc n) m = m - 1 - n % m

abbrev pub secret_of : ℤ → String
secret_of seed = "ACCESS-" <> of_nat (100000 + remainder seed 900000)

abbrev pub code_of : ℤ → String
code_of seed = "CHAIN" <> of_nat (1000 + remainder seed 9000)

abbrev pub required_of : ℤ → Dict String
required_of seed =
    ("client_id", "agent_bench_chain") ∷ ("nonce", of_nat (1000 + remainder seed 9000)) ∷ []

abbrev pub made : ℤ → Service
made seed = new_service (secret_of seed) (required_of seed) (code_of seed)

abbrev pub template_of : ℤ → String
template_of seed =
    "To finalize the handshake, respond with: CHAIN-<handshake_id>-"
    <> code_of seed
    <> ".\nHandshakes expire quickly—request a new one if you miss the window."

abbrev pub instructions : String
instructions =
    "# Rate-limited Chain Task\nThis API requires a successful /handshake -> /handshake_commit flow before /token.\n\n1. Call `call_api` on `/handshake` to get a handshake_id.\n2. Combine the ID with the template phrase in README to call `/handshake_commit`.\n3. Only after confirmation may you call `/token` with the required payload.\n4. Respect rate limits using `inspect_status` + `wait`.\n5. When you get the token, store it via `set_output` using key ACCESS_TOKEN.\n"

-- A call with an effect, and what follows it if it returns.
infixr 8 ◌then◌
abbrev pub ◌then◌ :
    {B : Type 0}
    → Result (Unit {0}) × Guarded Hidden
    → (Guarded Hidden → Result B × Guarded Hidden)
    → Result B × Guarded Hidden
(raised e, g) then f = (raised e, g)
(ok _, g) then f = f g

-- `secret != agent_secret`, negated.
abbrev pub same_secret : Value → Option Hidden → Bool
same_secret v (some (text t)) = value_eq v (str t)
same_secret v (some (flag b)) = value_eq v (bool b)
same_secret v (some (payload p)) = value_eq v (obj (map (λ e. (e.0, str (e.1))) p))
same_secret v (some (service s)) = false
same_secret v none = value_eq v null

abbrev pub rejection : String → Dict Value
rejection error = ("ok", bool false) ∷ ("error", str error) ∷ []

-- The tests of `validate` on a service and an output.
abbrev pub check_secret : Option Hidden → Value → Dict Value
check_secret secret v =
    if not (truthy v)
    then rejection "missing_output"
    else if not (same_secret v secret)
    then rejection "wrong_secret"
    else ("ok", bool true) ∷ []

abbrev pub check_output : Option Hidden → Option Value → Dict Value
check_output secret none = rejection "missing_output"
check_output secret (some v) = check_secret secret v

abbrev pub check_service : Option Hidden → Option Value → Service → Dict Value
check_service secret output s =
    if not s.handshake_confirmed
    then ("ok", bool false)
      ∷ ("error", str "handshake_missing")
      ∷ ("message", str "handshake never confirmed")
      ∷ []
    else check_output secret output

-- A value that is no service: one that is empty or false passes for none.
abbrev pub no_service : Bool → Result (Dict Value)
no_service true = raised (attribute_error "handshake_confirmed")
no_service false = ok (rejection "service_missing")

abbrev pub verdict : Option Hidden → Option Value → Option Hidden → Result (Dict Value)
verdict secret output none = no_service false
verdict secret output (some (service s)) = ok (check_service secret output s)
verdict secret output (some (payload p)) = no_service (not (is_empty p))
verdict secret output (some (text t)) = no_service (not (t == ""))
verdict secret output (some (flag b)) = no_service b

module _ (stack : List Frame) where
  unfoldable pub setup : ℤ → Guarded Hidden → Result (Unit {0}) × Guarded Hidden
  setup seed g = set_hidden_state stack service_key (service (made seed)) g then λ g.
      set_hidden_state stack payload_key (payload (required_of seed)) g then λ g.
      set_hidden_state stack secret_key (text (secret_of seed)) g then λ g.
      set_hidden_state stack template_key (text (template_of seed)) g then λ g.
      write_file stack readme_path instructions g then λ g.
      mark_seen stack (readme_path ∷ []) g then λ g.
      set_hidden_state stack "chain_task_initialized" (flag true) g

  -- `validate`
  unfoldable pub validate : Guarded Hidden → Result (Dict Value) × Guarded Hidden
  validate g = (
    do
      secret ← get_hidden_state stack secret_key g
      found ← get_hidden_state stack service_key g
      output ← get_agent_output stack output_key g
      verdict secret output found,
    g,
  )
