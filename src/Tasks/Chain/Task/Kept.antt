-- ===== src/Tasks/Chain/Task/Kept.antt =====
-- Calls, waits and outputs of the chain task keep what the trace tells of the environment.
use tracecore.Prelude.{
  String, ◌≡◌, refl, sym, ◌∙◌, ap, true, false, Option, none, some, List, ◌==◌, Bool-cases, inl,
  inr, subst, [], ◌∷◌, eq_iff, eq_refl, Any, arith,
}
use tracecore.Prelude.Int.{ℤ, pos, leb_ℤ}
use tracecore.Prelude.Dict.{get, put, get-put, get-put_self}
use tracecore.Value.{Value, null, bool, int, str, list, dict, obj}
use tracecore.Value.Equality.{value_eq, value_eq-str}
use tracecore.Exc.{Result, ok, raised, Result-cases, ok_inj, >>=-eq-ok}
use tracecore.Env.State.{Environment}
use tracecore.Env.Guard.{Guarded, Frame, ensure_allowed, get_hidden_state, set_agent_output}
use tracecore.Tasks.Chain.{Service, advance, call, confirmed_reply}
use tracecore.Runner.Model.{Entry}
use tracecore.Tasks.Chain.Task.Played.{
  IsCommit, IsStore, IsPlayed, advance-confirmed, call-confirmed,
}
use tracecore.Tasks.Chain.Task.{
  Hidden, service, payload, text, flag, service_key, secret_key, output_key,
}
use tracecore.Tasks.Chain.Task.Actions

-- What an output leaves, and a call that returned stored the value.
set_agent_output-put :
    (stack : List Frame) (key : String) (v : Value) (g : Guarded Hidden)
    → ((set_agent_output stack key v g).1.env.hidden_state ≡ g.env.hidden_state)
      × (((set_agent_output stack key v g).0 ≡ ok tt)
          → (set_agent_output stack key v g).1.env.agent_output ≡ put key v g.env.agent_output)
unfolding set_agent_output tracecore.Env.State.set_agent_output
set_agent_output-put stack key v g = elim (Result-cases (ensure_allowed stack g)) [
  | inl (u, e) ↦ rw (set_agent_output, e) (refl, λ h. refl)
  | inr (x, e) ↦ rw (set_agent_output, e) (refl, λ h. let bad : raised x ≡ ok tt = h in cc)
]

module _ (stack : List Frame) (load : String → Option Value) (seed : ℤ) (es : List Entry)
    (result : Value) where
  abbrev pub Played : Environment Hidden → Type 0
  Played = IsPlayed seed es

  -- An action that returns this result.
  abbrev pub Keeps : Result Value × Guarded Hidden → Type 0
  Keeps r = r.0 ≡ ok result → Played (r.1).env

  pub bound-Keeps :
      {A : Type 0} (r : Result A) (g : Guarded Hidden) (f : A → Result Value × Guarded Hidden)
      → Played g.env
      → ((a : A) → r ≡ ok a → Keeps (f a))
      → Keeps (Actions.bound r g f)
  bound-Keeps (raised e) g f p h = λ q. p
  bound-Keeps (ok a) g f p h = h a refl

  service_in-ok :
      (o : Option Hidden) (s : Service) → Actions.service_in o ≡ ok s → o ≡ some (service s)
  service_in-ok none s h = cc
  service_in-ok (some (service t)) s h = cc
  service_in-ok (some (payload t)) s h = cc
  service_in-ok (some (text t)) s h = cc
  service_in-ok (some (flag t)) s h = cc

  -- The service that an action gets is the current one.
  service-current :
      (g : Guarded Hidden) (s : Service) (p : Played g.env)
      → Actions.get_service stack load g ≡ ok s
      → p.current ≡ s
  unfolding get_hidden_state tracecore.Env.State.get_hidden_state
  service-current g s p h =
      let (o, e, q) = >>=-eq-ok (get_hidden_state stack service_key g) _ h in
      elim (Result-cases (ensure_allowed stack g)) [
        | inr (x, a) ↦ let bad : raised x ≡ ok o = rw (get_hidden_state, a) at e in cc
        | inl (u, a) ↦
            let held : ok (get service_key g.env.hidden_state) ≡ ok o =
              rw (get_hidden_state, a) at e in
            let same : some (service p.current) ≡ some (service s) =
              sym p.is_current ∙ ok_inj held ∙ service_in-ok o s q in
            cc
      ]

  -- A service whose handshake was confirmed before, or by an entry.
  with_service-Keeps :
      (g : Guarded Hidden) (s : Service)
      → Played g.env
      → (s.handshake_confirmed ≡ true → Any IsCommit es)
      → Played (Actions.with_service s g).env
  with_service-Keeps g s p c = record {
    current = s;
    is_current = get-put_self service_key (service s) g.env.hidden_state;
    is_secret = rw get-put p.is_secret;
    committed = c;
    stored = p.stored;
  }

  endpoint_of-str :
      (v : Value) (s : String) → (s == "") ≡ false → Actions.endpoint_of v ≡ s → v ≡ str s
  endpoint_of-str (str t) s n h = ap str h
  endpoint_of-str null s n h =
      let bad : ("" == s) ≡ true = rw h (eq_refl s) in ground (arith, eq_iff s "", eq_iff "" s)
  endpoint_of-str (bool b) s n h = ground (arith, eq_iff s "", eq_refl s)
  endpoint_of-str (int b) s n h = ground (arith, eq_iff s "", eq_refl s)
  endpoint_of-str (list b) s n h = ground (arith, eq_iff s "", eq_refl s)
  endpoint_of-str (dict b) s n h = ground (arith, eq_iff s "", eq_refl s)

  pub call_api-Keeps :
      (endpoint v : Value) (g : Guarded Hidden)
      → (endpoint ≡ str "/handshake_commit" → result ≡ obj confirmed_reply → Any IsCommit es)
      → Played g.env
      → Keeps (Actions.call_api stack load endpoint v g)
  call_api-Keeps endpoint v g commit p =
      bound-Keeps (Actions.get_service stack load g) g _ p (λ s e.
        elim (Bool-cases (Actions.refused_payload v (Actions.coerce_payload load v))) [
          | inl b ↦ rw b (λ q. p)
          | inr b ↦ rw b λ q.
              let d = Actions.coerce_payload load v in
              with_service-Keeps g (call (Actions.endpoint_of endpoint) d s).1 p λ c.
                elim (call-confirmed (Actions.endpoint_of endpoint) d s c) [
                  | inl k ↦ p.committed (rw (service-current g s p e) k)
                  | inr k ↦
                      commit (endpoint_of-str endpoint "/handshake_commit" refl (k.0))
                        (sym (ok_inj q) ∙ ap obj (k.1))
                ]
        ])

  waited-Keeps :
      (shown : String) (g : Guarded Hidden) (s : Service) (n : ℤ)
      → (p : Played g.env) → p.current ≡ s
      → Keeps (Actions.waited stack load shown g (advance n s))
  waited-Keeps shown g s n p r = elim (Result-cases (advance n s)) [
    | inl (t, e) ↦
        rw e λ q.
          with_service-Keeps g t p λ c. p.committed (rw r (sym (advance-confirmed n s t e) ∙ c))
    | inr (x, e) ↦ rw e (λ q. p)
  ]

  wait_steps-Keeps :
      (n : ℤ) (shown : String) (g : Guarded Hidden)
      → Played g.env
      → Keeps (Actions.wait_steps stack load n shown g)
  wait_steps-Keeps n shown g p = elim (Bool-cases (leb_ℤ n (pos 0))) [
    | inl b ↦ rw b (λ q. p)
    | inr b ↦ rw b (
        bound-Keeps (Actions.get_service stack load g) g _ p
          λ s e. waited-Keeps shown g s n p (service-current g s p e))
  ]

  pub wait_for-Keeps :
      (v : Value) (g : Guarded Hidden) → Played g.env → Keeps (Actions.wait_for stack load v g)
  wait_for-Keeps (int n) g p = wait_steps-Keeps n (Actions.int_text n) g p
  wait_for-Keeps (bool true) g p = wait_steps-Keeps (pos 1) "True" g p
  wait_for-Keeps (bool false) g p = wait_steps-Keeps (pos 0) "False" g p
  wait_for-Keeps null g p = λ q. p
  wait_for-Keeps (str t) g p = λ q. p
  wait_for-Keeps (list vs) g p = λ q. p
  wait_for-Keeps (dict f) g p = λ q. p

  stored-Keeps :
      (r : Result (Unit {0}) × Guarded Hidden)
      → (r.0 ≡ ok tt → result ≡ obj (("ok", bool true) ∷ []) → Played (r.1).env)
      → Keeps (Actions.stored_reply r)
  stored-Keeps (ok tt, g) p = λ q. p refl (sym (ok_inj q))
  stored-Keeps (raised e, g) p = λ q. cc

  pub set_output-Keeps :
      (key v : Value) (g : Guarded Hidden)
      → (key ≡ str output_key → result ≡ obj (("ok", bool true) ∷ []) → Any (IsStore v) es)
      → Played g.env
      → Keeps (Actions.set_output stack load key v g)
  set_output-Keeps key v g store p = elim (Bool-cases (value_eq key (str output_key))) [
    | inr b ↦ rw b (λ q. p)
    | inl b ↦ rw b (
        stored-Keeps (set_agent_output stack output_key v g) λ h q.
          let (hidden, output) = set_agent_output-put stack output_key v g in
          record {
            current = p.current;
            is_current = ap (get service_key) hidden ∙ p.is_current;
            is_secret = ap (get secret_key) hidden ∙ p.is_secret;
            committed = p.committed;
            stored = λ w found.
                let now : some v ≡ some w =
                  sym
                    (ap (get output_key) (output h) ∙ get-put_self output_key v g.env.agent_output)
                  ∙ found in
                let same : v ≡ w = cc in
                subst (λ u. Any (IsStore u) es) same (store (value_eq-str key output_key b) q);
          })
  ]
