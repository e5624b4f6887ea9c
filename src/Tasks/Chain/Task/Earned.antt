-- ===== src/Tasks/Chain/Task/Earned.antt =====
-- The task rate_limited_chain in a run.
use tracecore.Prelude.{
  String, ◌≡◌, refl, sym, ◌∙◌, ap, true, Option, none, some, List, [], ◌∷◌, Bool-cases, inl, inr,
  false≢true, false, Bool, Any, arith,
}
use tracecore.Prelude.Int.{ℤ, pos}
use tracecore.Prelude.Dict.{Dict, get}
use tracecore.Value.{Value, int, str, list, obj, of_list, truthy, get_or_null}
use tracecore.Value.Equality.{value_eq, value_eq-str}
use tracecore.Exc.{Result, ok, raised, Result-cases, ok_inj, >>=-eq-ok}
use tracecore.Env.State
use tracecore.Env.State.{Environment, new_environment}
use tracecore.Env.Guard.{
  Guarded, Frame, ensure_allowed, new_guarded, normalize_roots, get_hidden_state, get_agent_output,
}
use tracecore.Runner.Model.{Agent, World, Entry, Exit, returned, crashed, out_of_fuel}
use tracecore.Runner.Loop.Carried.{IsCarried}
use tracecore.Runner.Loop.Invariant.Total.{Exits}
use tracecore.Runner.Run.{Loaded, run}
use tracecore.Runner.Run.Carried.{Approved, run-Approved}
use tracecore.Runner.Run.Sound.{run-IsWithin}
use tracecore.Runner.Loop.Invariant.{IsWithin}
use tracecore.Tasks.Chain.{Service}
use tracecore.Tasks.Chain.Task.{
  Hidden, service, text, service_key, secret_key, output_key, secret_of, made, same_secret,
  check_service, check_output, check_secret, setup, validate,
}
use tracecore.Tasks.Chain.Task.Actions.{chain_task}
use tracecore.Tasks.Chain.Task.Played.{IsCommit, IsStore, IsPlayed, same-IsPlayed}
use tracecore.Tasks.Chain.Task.Acted.{act-Keeps}
use tracecore.Tasks.Chain.Task.SetUp.{setup-IsFresh}

module _ (stack : List Frame) where
  -- A look at the hidden state that is not refused.
  hidden-get :
      (key : String) (g : Guarded Hidden) (o : Option Hidden)
      → get_hidden_state stack key g ≡ ok o
      → get key g.env.hidden_state ≡ o
  unfolding get_hidden_state State.get_hidden_state
  hidden-get key g o h = elim (Result-cases (ensure_allowed stack g)) [
    | inl (u, e) ↦ ok_inj (rw (get_hidden_state, e) at h)
    | inr (x, e) ↦ let bad : raised x ≡ ok o = rw (get_hidden_state, e) at h in cc
  ]

  output-get :
      (g : Guarded Hidden) (o : Option Value)
      → get_agent_output stack output_key g ≡ ok o
      → get output_key g.env.agent_output ≡ o
  unfolding get_agent_output State.get_agent_output
  output-get g o h = elim (Result-cases (ensure_allowed stack g)) [
    | inl (u, e) ↦ ok_inj (rw (get_agent_output, e) at h)
    | inr (x, e) ↦ let bad : raised x ≡ ok o = rw (get_agent_output, e) at h in cc
  ]

new_guarded-env :
    (env : Environment Hidden) (roots hosts : List String) (allow_test : Bool) (g : Guarded Hidden)
    → new_guarded env roots hosts allow_test ≡ ok g
    → g.env ≡ env
unfolding new_guarded
new_guarded-env env roots hosts allow_test g h = elim (Result-cases (normalize_roots roots)) [
  | inr (x, e) ↦ let bad : raised x ≡ ok g = rw (new_guarded, e) at h in cc
  | inl (rs, e) ↦ ap (λ x. x.env) (sym (ok_inj (rw (new_guarded, e) at h)))
]

-- The tests of the validator, where they accept.
check_secret_sound :
    (secret : String) (v : Value)
    → truthy (get_or_null "ok" (check_secret (some (text secret)) v)) ≡ true
    → v ≡ str secret
unfolding truthy get_or_null get
check_secret_sound secret v h = elim (Bool-cases (truthy v)) [
  | inr t ↦ absurd (false≢true (rw (check_secret, t) at h))
  | inl t ↦ elim (Bool-cases (value_eq v (str secret))) [
    | inl e ↦ value_eq-str v secret e
    | inr e ↦ absurd (false≢true (rw (check_secret, t, same_secret, e) at h))
  ]
]

check_service_sound :
    (secret : String) (output : Option Value) (s : Service)
    → truthy (get_or_null "ok" (check_service (some (text secret)) output s)) ≡ true
    → (s.handshake_confirmed ≡ true) × (output ≡ some (str secret))
unfolding truthy get_or_null get
check_service_sound secret output s h = elim (Bool-cases s.handshake_confirmed) [
  | inr c ↦ absurd (false≢true (rw (check_service, c) at h))
  | inl c ↦ (c, given output (rw (check_service, c) at h))
]
  where
    given :
        (o : Option Value)
        → truthy (get_or_null "ok" (check_output (some (text secret)) o)) ≡ true
        → o ≡ some (str secret)
    given none q = absurd (false≢true q)
    given (some v) q = ap some (check_secret_sound secret v q)

-- The trace has the two calls that the task asks for: a commit that confirmed the handshake, and one
-- that stored the secret of the seed as ACCESS_TOKEN.
pub record IsEarned (seed : ℤ) (trace : List Entry) : Type 0 where
  pub committed : Any IsCommit trace
  pub stored : Any (IsStore (str (secret_of seed))) trace

validate-IsEarned :
    (stack : List Frame) (seed : ℤ) (trace : List Entry) (g after : Guarded Hidden)
    (validation : Dict Value)
    → validate stack g ≡ (ok validation, after)
    → truthy (get_or_null "ok" validation) ≡ true
    → IsPlayed seed trace g.env
    → IsEarned seed trace
unfolding validate
validate-IsEarned stack seed trace g after validation v good p =
    let (secret, a, v1) = >>=-eq-ok (get_hidden_state stack secret_key g) _ (ap (λ r. r.0) v) in
    let (found, b, v2) = >>=-eq-ok (get_hidden_state stack service_key g) _ v1 in
    let (output, c, v3) = >>=-eq-ok (get_agent_output stack output_key g) _ v2 in
    let is_secret : secret ≡ some (text (secret_of seed)) =
      sym (hidden-get stack secret_key g secret a) ∙ p.is_secret in
    let is_service : found ≡ some (service p.current) =
      sym (hidden-get stack service_key g found b) ∙ p.is_current in
    let result : ok (check_service (some (text (secret_of seed))) output p.current)
        ≡ ok validation =
      rw (is_secret, is_service) at v3 in
    let (confirmed, given) =
      check_service_sound (secret_of seed) output p.current (rw (ok_inj result) good) in
    record {
      committed = p.committed confirmed;
      stored = p.stored (str (secret_of seed)) (output-get stack g output c ∙ given);
    }

-- The task as task.toml has it, for an agent and its reset.
abbrev pub chain_run :
    {S : Type 0}
    → List Frame
    → (String → Option Value)
    → Agent S
    → (Value → Result (Unit {0}) × S)
    → Loaded Hidden S
chain_run stack load agent reset = record {
  task = chain_task stack load;
  agent = agent;
  setup = setup stack;
  reset = reset;
  filesystem_roots = "/app" ∷ [];
  network_hosts = [];
  sandbox = obj (
      ("filesystem_roots", list (of_list (str "/app" ∷ [])))
      ∷ ("network_hosts", list (of_list []))
      ∷ []);
  budgets = obj (("steps", int (pos 140)) ∷ ("tool_calls", int (pos 60)) ∷ []);
  max_steps = pos 140;
  max_tool_calls = pos 60;
}

chain-IsCarried :
    (stack : List Frame) (load : String → Option Value) (seed : ℤ)
    → IsCarried (chain_task stack load) (IsPlayed seed)
unfolding validate
chain-IsCarried stack load seed = record {
  called = act-Keeps stack load seed;
  validated = λ es g p. p;
  seen = λ es env paths p. same-IsPlayed seed es env _ refl refl p;
}

-- The setup confirms no handshake and stores no output.
setup-IsPlayed :
    (stack : List Frame) (seed : ℤ) (g : Guarded Hidden)
    → g.env.agent_output ≡ []
    → (setup stack seed g).0 ≡ ok tt
    → IsPlayed seed [] (setup stack seed g).1.env
unfolding get
setup-IsPlayed stack seed g empty h =
    let (is_secret, is_current, no_output) = setup-IsFresh stack seed g empty h in
    record {
      current = made seed;
      is_current = is_current;
      is_secret = is_secret;
      committed = λ c. absurd (false≢true c);
      stored =
          λ v found. let bad : none ≡ some v = ap (get output_key) (sym no_output) ∙ found in cc;
    }

-- A run of the task rate_limited_chain ends, whatever the agent and the clock do; and if it reports
-- success, then its trace has an entry of a call of `call_api` to /handshake_commit whose result
-- says that the handshake is confirmed, and an entry of a call of `set_output` that stored the
-- secret of the seed as ACCESS_TOKEN.
pub run-IsEarned :
    {S : Type 0} (stack : List Frame) (load : String → Option Value) (agent : Agent S)
    (reset : Value → Result (Unit {0}) × S) (world : World) (seed : ℤ)
    → Exits
        (λ o. o.success ≡ true → IsEarned seed o.action_trace)
        (run (chain_run stack load agent reset) world seed)
run-IsEarned stack load agent reset world seed =
    let p = chain_run stack load agent reset in
    earned (run p world seed) (run-IsWithin p world seed (omega arith) (omega arith)) (
      run-Approved p world seed (IsPlayed seed) (chain-IsCarried stack load seed) λ g n.
        setup-IsPlayed stack seed g
          (ap (λ e. e.agent_output) (new_guarded-env new_environment ("/app" ∷ []) [] false g n)))
  where
    earned :
        (e : Exit)
        → Exits (λ o. IsWithin (pos 140) (pos 60) o) e
        → Approved
            (chain_run stack load agent reset)
            world
            seed
            (IsPlayed seed)
            (chain-IsCarried stack load seed)
            e
        → Exits (λ o. o.success ≡ true → IsEarned seed o.action_trace) e
    earned (returned o) w a = λ good.
        let y = a good in
        validate-IsEarned stack seed o.action_trace y.before y.after y.validation y.asked y.approved
          y.carried
    earned (crashed e) w a = tt
    earned out_of_fuel w a = w
