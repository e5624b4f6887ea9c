-- ===== src/Tasks/Chain/Task/Played.antt =====
-- What the trace of a run of rate_limited_chain tells of its environment.
use tracecore.Prelude.{
  String, ◌≡◌, sym, ◌∙◌, ap, true, false, Option, none, some, List, [], ◌∷◌, ◌++◌, ◌==◌, eq_iff,
  Any, Any-append, ◌⊎◌, inl, inr, Bool-cases, arith,
}
use tracecore.Prelude.Int.{ℤ}
use tracecore.Prelude.Dict.{Dict, get}
use tracecore.Value.{Value, bool, str, obj}
use tracecore.Exc.{ok, ok_inj}
use tracecore.Env.State.{Environment}
use tracecore.Runner.Action.{action_type, action_args}
use tracecore.Runner.Model.{Entry}
use tracecore.Tasks.Chain
use tracecore.Tasks.Chain.{Service, confirmed_reply, advance}
use tracecore.Tasks.Chain.Task.{
  Hidden, service, text, service_key, secret_key, output_key, secret_of,
}

-- An entry of a call to /handshake_commit that confirmed the handshake.
pub record IsCommit (e : Entry) : Type 0 where
  pub kind : action_type e.action ≡ "call_api"
  pub endpoint : get "endpoint" (action_args e.action) ≡ some (str "/handshake_commit")
  pub reply : e.result ≡ obj confirmed_reply

-- An entry of a call that stored this value as ACCESS_TOKEN.
pub record IsStore (v : Value) (e : Entry) : Type 0 where
  pub kind : action_type e.action ≡ "set_output"
  pub key : get "key" (action_args e.action) ≡ some (str output_key)
  pub value : get "value" (action_args e.action) ≡ some v
  pub reply : e.result ≡ obj (("ok", bool true) ∷ [])

-- The hidden state has the secret of the seed and a service; if its handshake is confirmed, an entry
-- of the trace did it, and a value that stands as the output was stored by an entry of the trace.
pub record IsPlayed (seed : ℤ) (es : List Entry) (env : Environment Hidden) : Type 0 where
  pub current : Service
  pub is_current : get service_key env.hidden_state ≡ some (service current)
  pub is_secret : get secret_key env.hidden_state ≡ some (text (secret_of seed))
  pub committed : current.handshake_confirmed ≡ true → Any IsCommit es
  pub stored : (v : Value) → get output_key env.agent_output ≡ some v → Any (IsStore v) es

-- An environment with the same hidden state and output.
pub same-IsPlayed :
    (seed : ℤ) (es : List Entry) (e f : Environment Hidden)
    → f.hidden_state ≡ e.hidden_state
    → f.agent_output ≡ e.agent_output
    → IsPlayed seed es e
    → IsPlayed seed es f
same-IsPlayed seed es e f q o p = record {
  current = p.current;
  is_current = ap (get service_key) q ∙ p.is_current;
  is_secret = ap (get secret_key) q ∙ p.is_secret;
  committed = p.committed;
  stored = λ v h. p.stored v (sym (ap (get output_key) o) ∙ h);
}

-- A longer trace.
pub longer-IsPlayed :
    (seed : ℤ) (es fs : List Entry) (env : Environment Hidden)
    → IsPlayed seed es env
    → IsPlayed seed (es ++ fs) env
longer-IsPlayed seed es fs env p = record {
  current = p.current;
  is_current = p.is_current;
  is_secret = p.is_secret;
  committed = λ c. Any-append IsCommit es fs (p.committed c);
  stored = λ v h. Any-append (IsStore v) es fs (p.stored v h);
}

-- Time does not confirm a handshake.
pub advance-confirmed :
    (n : ℤ) (s t : Service) → advance n s ≡ ok t → t.handshake_confirmed ≡ s.handshake_confirmed
unfolding advance
advance-confirmed (ℤ.pos n) s t h = ap (λ x. x.handshake_confirmed) (sym (ok_inj h))
advance-confirmed (ℤ.negsuc n) s t h = cc

abbrev Commits : Service → Dict Value × Service → Type 0
Commits s (reply, t) =
    t.handshake_confirmed ≡ true → (s.handshake_confirmed ≡ true) ⊎ (reply ≡ confirmed_reply)

commit_with-Commits : (d : Dict Value) (s : Service) → Commits s (Chain.commit_with d s)
commit_with-Commits d s = ground arith

handshake_commit-Commits :
    (payload : Option (Dict Value)) (s : Service) → Commits s (Chain.handshake_commit payload s)
handshake_commit-Commits none s h = inl h
handshake_commit-Commits (some []) s h = inl h
handshake_commit-Commits (some (e ∷ d)) s h = commit_with-Commits (e ∷ d) s h

token-confirmed :
    (payload : Option (Dict Value)) (s : Service)
    → ((Chain.token payload s).1).handshake_confirmed ≡ true
    → s.handshake_confirmed ≡ true
token-confirmed none s = ground arith
token-confirmed (some d) s = ground arith

-- After a call the handshake is confirmed only if it was before, or the call was a commit that was
-- told so.
pub call-confirmed :
    (endpoint : String) (payload : Option (Dict Value)) (s : Service)
    → ((Chain.call endpoint payload s).1).handshake_confirmed ≡ true
    → (s.handshake_confirmed ≡ true)
      ⊎ ((endpoint ≡ "/handshake_commit") × ((Chain.call endpoint payload s).0 ≡ confirmed_reply))
unfolding Chain.call
call-confirmed endpoint payload s h = elim (Bool-cases (endpoint == "/handshake")) [
  | inl a ↦ let bad : false ≡ true = rw (Chain.call, a) at h in cc
  | inr a ↦ elim (Bool-cases (endpoint == "/handshake_commit")) [
    | inl b ↦ elim (handshake_commit-Commits payload s (rw (Chain.call, a, b) at h)) [
      | inl k ↦ inl k
      | inr r ↦ inr ((eq_iff endpoint "/handshake_commit").0 b, rw (Chain.call, a, b) r)
    ]
    | inr b ↦ elim (Bool-cases (endpoint == "/token")) [
      | inr c ↦ inl (rw (Chain.call, a, b, c) at h)
      | inl c ↦ inl (token-confirmed payload s (rw (Chain.call, a, b, c) at h))
    ]
  ]
]
