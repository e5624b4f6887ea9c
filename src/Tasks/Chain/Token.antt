-- ===== src/Tasks/Chain/Token.antt =====
-- When a service gives its token away.
use tracecore.Prelude.{
  ◌+◌, ◌≤◌, ◌≡◌, ◌↔◌, refl, Bool, true, false, not, Option, none, some, ◌∷◌, ltb, arith, inl, inr,
  Bool-cases, if◌then◌else◌,
}
use tracecore.Prelude.Dict.{Dict}
use tracecore.Value.{Value, bool}
use tracecore.Tasks.Chain.{
  Service, says, has_required, failure, call, token_reply, token_with, valid_token, token,
}

-- What the service asks for before it gives the token.
pub record IsReady (payload : Option (Dict Value)) (s : Service) : Type 0 where
  pub sent : Dict Value
  pub given : payload ≡ some sent
  pub confirmed : s.handshake_confirmed ≡ true
  pub complete : has_required s.required_payload sent ≡ true
  pub current : says "handshake_id" s.handshake_id sent ≡ true
  pub unblocked : s.blocked_until ≤ s.now
  pub settled : s.transient_pending ≡ false

abbrev counted : Service → Service
counted s = record s { token_calls = s.token_calls + 1 }

-- A reply that is not ok is no token.
refused : (rest : Dict Value) (s : Service) → (("ok", bool false) ∷ rest) ≡ token_reply s → ⊥
refused rest s h = cc

token_with-IsReady :
    (payload : Dict Value) (s : Service)
    → s.handshake_confirmed ≡ true
    → has_required s.required_payload payload ≡ true
    → (token_with payload (counted s)).0 ≡ token_reply s
    → IsReady (some payload) s
token_with-IsReady payload s c r h =
    elim (Bool-cases (says "handshake_id" s.handshake_id payload)) [
      | inr e ↦ absurd (refused _ s (rw e at h))
      | inl e ↦ elim (Bool-cases (ltb s.now s.blocked_until)) [
        | inl f ↦ absurd (refused _ s (rw (e, f) at h))
        | inr f ↦ elim (Bool-cases s.transient_pending) [
          | inl g ↦ absurd (refused _ s (rw (e, f, g) at h))
          | inr g ↦ record {
            sent = payload;
            given = refl;
            confirmed = c;
            complete = r;
            current = e;
            unblocked = ground (arith, f);
            settled = g;
          }
        ]
      ]
    ]

valid_token-IsReady :
    (payload : Option (Dict Value)) (s : Service)
    → s.handshake_confirmed ≡ true
    → (valid_token payload (counted s)).0 ≡ token_reply s
    → IsReady payload s
valid_token-IsReady none s c h = absurd (refused _ s h)
valid_token-IsReady (some p) s c h = elim (Bool-cases (has_required s.required_payload p)) [
  | inr e ↦ absurd (refused _ s (rw e at h))
  | inl e ↦ token_with-IsReady p s c e (rw e at h)
]

guarded-IsReady :
    (confirmed : Bool) (payload : Option (Dict Value)) (s : Service)
    → s.handshake_confirmed ≡ confirmed
    → (if not confirmed
        then (failure "handshake_required" "complete handshake first", counted s)
        else valid_token payload (counted s)).0
      ≡ token_reply s
    → IsReady payload s
guarded-IsReady false payload s c h = absurd (refused _ s h)
guarded-IsReady true payload s c h = valid_token-IsReady payload s c h

token-IsReady :
    (payload : Option (Dict Value)) (s : Service)
    → (token payload s).0 ≡ token_reply s
    → IsReady payload s
token-IsReady payload s h = guarded-IsReady s.handshake_confirmed payload s refl h

ready-token :
    (payload : Option (Dict Value)) (s : Service)
    → IsReady payload s
    → (token payload s).0 ≡ token_reply s
ready-token payload s r =
    let early : ltb s.now s.blocked_until ≡ false = ground (arith, r.unblocked) in
    rw (r.given, r.confirmed, r.complete, r.current, early, r.settled) refl

-- The service gives its token exactly when the handshake is confirmed, the payload is there, has
-- every required entry and names the current handshake, the block has ended, and the transient
-- failure is behind.
pub call-token :
    (payload : Option (Dict Value)) (s : Service)
    → ((call "/token" payload s).0 ≡ token_reply s) ↔ IsReady payload s
unfolding call
call-token payload s = (token-IsReady payload s, ready-token payload s)
