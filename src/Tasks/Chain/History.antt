-- ===== src/Tasks/Chain/History.antt =====
-- What a service can come to, from what it was made with.
use tracecore.Prelude.{
  ◌+◌, ◌≤◌, ◌<◌, ◌≡◌, refl, sym, false≢true, String, Bool, true, false, not, Option, none, some, [],
  ◌∷◌, ◌==◌, ltb, arith, inl, inr, Bool-cases, if◌then◌else◌,
}
use tracecore.Prelude.Int.{pos, negsuc, ℤ}
use tracecore.Prelude.Dict.{Dict}
use tracecore.Value.{Value}
use tracecore.Exc.{ok, ok_inj, ok-ne-raised}
use tracecore.Tasks.Chain.{
  Service, failure, new_service, advance, call, says, expired, expected_phrase, has_required,
  commit_with, handshake_commit, token_with, valid_token, token,
}

-- What one call can change.
data Change (s : Service) : Service → Type 0 where
  same : Change s s
  opened :
      (id : String)
      → Change s (record s {
        handshake_id = some id;
        handshake_expires_at = some (s.now + s.handshake_window);
        handshake_confirmed = false;
      })
  confirmed : Change s (record s { handshake_confirmed = true })
  counted : Change s (record s { token_calls = s.token_calls + 1 })
  limited :
      s.now < s.blocked_until
      → Change s
          (record s { token_calls = s.token_calls + 1; rate_limit_hits = s.rate_limit_hits + 1 })
  cleared :
      s.blocked_until ≤ s.now
      → Change s (record s { token_calls = s.token_calls + 1; transient_pending = false })

commit_with-Change : (payload : Dict Value) (s : Service) → Change s ((commit_with payload s).1)
commit_with-Change payload s = elim (Bool-cases (says "handshake_id" s.handshake_id payload)) [
  | inr e ↦ rw e same
  | inl e ↦ elim (Bool-cases (expired s.handshake_expires_at s.now)) [
    | inl f ↦ rw (e, f) same
    | inr f ↦
        elim (Bool-cases (says "response" (expected_phrase s.handshake_id s.chain_code) payload)) [
          | inr g ↦ rw (e, f, g) same
          | inl g ↦ rw (e, f, g) confirmed
        ]
  ]
]

handshake_commit-Change :
    (payload : Option (Dict Value)) (s : Service) → Change s ((handshake_commit payload s).1)
handshake_commit-Change none s = same
handshake_commit-Change (some []) s = same
handshake_commit-Change (some (e ∷ payload)) s = commit_with-Change (e ∷ payload) s

-- The call is counted first.
abbrev called : Service → Service
called s = record s { token_calls = s.token_calls + 1 }

token_with-Change :
    (payload : Dict Value) (s : Service) → Change s ((token_with payload (called s)).1)
token_with-Change payload s = elim (Bool-cases (says "handshake_id" s.handshake_id payload)) [
  | inr e ↦ rw e counted
  | inl e ↦ elim (Bool-cases (ltb s.now s.blocked_until)) [
    | inl f ↦ rw (e, f) (limited (ground (arith, f)))
    | inr f ↦ elim (Bool-cases s.transient_pending) [
      | inl g ↦ rw (e, f, g) (cleared (ground (arith, f)))
      | inr g ↦ rw (e, f, g) counted
    ]
  ]
]

valid_token-Change :
    (payload : Option (Dict Value)) (s : Service) → Change s ((valid_token payload (called s)).1)
valid_token-Change none s = counted
valid_token-Change (some p) s = elim (Bool-cases (has_required s.required_payload p)) [
  | inr e ↦ rw e counted
  | inl e ↦ rw e (token_with-Change p s)
]

confirmed-Change :
    (confirmed : Bool) (payload : Option (Dict Value)) (s : Service)
    → Change s (
        (if not confirmed
          then (failure "handshake_required" "complete handshake first", called s)
          else valid_token payload (called s)).1)
confirmed-Change false payload s = counted
confirmed-Change true payload s = valid_token-Change payload s

token-Change : (payload : Option (Dict Value)) (s : Service) → Change s ((token payload s).1)
token-Change payload s = confirmed-Change s.handshake_confirmed payload s

call-Change :
    (endpoint : String) (payload : Option (Dict Value)) (s : Service)
    → Change s ((call endpoint payload s).1)
unfolding call
call-Change endpoint payload s = elim (Bool-cases (endpoint == "/handshake")) [
  | inl e ↦ rw e (opened _)
  | inr e ↦ elim (Bool-cases (endpoint == "/handshake_commit")) [
    | inl f ↦ rw (e, f) (handshake_commit-Change payload s)
    | inr f ↦ elim (Bool-cases (endpoint == "/token")) [
      | inl g ↦ rw (e, f, g) (token-Change payload s)
      | inr g ↦ rw (e, f, g) same
    ]
  ]
]

-- A service that calls and the passing of time lead to, from a new one.
pub data Reaches (made : Service) : Service → Type 0 where
  start : Reaches made made
  requested :
      {s : Service}
      → Reaches made s
      → (endpoint : String) (payload : Option (Dict Value))
      → Reaches made ((call endpoint payload s).1)
  waited : {s t : Service} → Reaches made s → (steps : ℤ) → advance steps s ≡ ok t → Reaches made t

-- What stays of the service as it was made, and how its counts and times go together.
pub record IsConsistent (made s : Service) : Type 0 where
  pub secret : s.secret ≡ made.secret
  pub required_payload : s.required_payload ≡ made.required_payload
  pub chain_code : s.chain_code ≡ made.chain_code
  pub blocked_until : s.blocked_until ≡ made.blocked_until
  pub later : made.now ≤ s.now
  pub hits : s.rate_limit_hits ≤ s.token_calls
  pub cleared :
      s.transient_pending ≡ false → (s.blocked_until ≤ s.now) × (s.rate_limit_hits < s.token_calls)
  pub limited : s.now < s.blocked_until → s.transient_pending ≡ true

changed-IsConsistent : (made s t : Service) → IsConsistent made s → Change s t → IsConsistent made t
changed-IsConsistent made s _ c same = c
changed-IsConsistent made s _ c (opened id) = record {
  secret = c.secret;
  required_payload = c.required_payload;
  chain_code = c.chain_code;
  blocked_until = c.blocked_until;
  later = c.later;
  hits = c.hits;
  cleared = c.cleared;
  limited = c.limited;
}
changed-IsConsistent made s _ c confirmed = record {
  secret = c.secret;
  required_payload = c.required_payload;
  chain_code = c.chain_code;
  blocked_until = c.blocked_until;
  later = c.later;
  hits = c.hits;
  cleared = c.cleared;
  limited = c.limited;
}
changed-IsConsistent made s _ c counted = record {
  secret = c.secret;
  required_payload = c.required_payload;
  chain_code = c.chain_code;
  blocked_until = c.blocked_until;
  later = c.later;
  hits = omega (arith, c.hits);
  cleared = λ h. ((c.cleared h).0, omega (arith, (c.cleared h).1));
  limited = c.limited;
}
changed-IsConsistent made s _ c (limited early) = record {
  secret = c.secret;
  required_payload = c.required_payload;
  chain_code = c.chain_code;
  blocked_until = c.blocked_until;
  later = c.later;
  hits = omega (arith, c.hits);
  cleared = λ h. absurd (omega (arith, early, (c.cleared h).0));
  limited = c.limited;
}
changed-IsConsistent made s _ c (cleared late) = record {
  secret = c.secret;
  required_payload = c.required_payload;
  chain_code = c.chain_code;
  blocked_until = c.blocked_until;
  later = c.later;
  hits = omega (arith, c.hits);
  cleared = λ h. (late, omega (arith, c.hits));
  limited = λ early. absurd (omega (arith, early, late));
}

waited-IsConsistent :
    (made s t : Service) (steps : ℤ)
    → IsConsistent made s
    → advance steps s ≡ ok t
    → IsConsistent made t
unfolding advance
waited-IsConsistent made s t (pos n) c h = rw (← ok_inj h) (record {
  secret = c.secret;
  required_payload = c.required_payload;
  chain_code = c.chain_code;
  blocked_until = c.blocked_until;
  later = omega (arith, c.later);
  hits = c.hits;
  cleared = λ h. (omega (arith, (c.cleared h).0), (c.cleared h).1);
  limited = λ early. c.limited (omega (arith, early));
})
waited-IsConsistent made s t (negsuc n) c h = absurd (ok-ne-raised (sym h))

-- Whatever is called and however time passes, a service keeps the secret, the payload, the code and
-- the end of the block that it was made with; its clock does not go back; no more calls of the
-- token are counted as rate limited than there were; and the transient failure is behind it only
-- once the block has ended, and after a call of the token that was not rate limited.
pub reaches-IsConsistent :
    (secret : String) (required : Dict String) (code : String) (s : Service)
    → Reaches (new_service secret required code) s
    → IsConsistent (new_service secret required code) s
reaches-IsConsistent secret required code _ start = record {
  secret = refl;
  required_payload = refl;
  chain_code = refl;
  blocked_until = refl;
  later = omega arith;
  hits = omega arith;
  cleared = λ h. absurd (false≢true (sym h));
  limited = λ early. refl;
}
reaches-IsConsistent secret required code _ (requested r endpoint payload) =
    changed-IsConsistent _ _ _ (reaches-IsConsistent secret required code _ r)
      (call-Change endpoint payload _)
reaches-IsConsistent secret required code _ (waited r steps h) =
    waited-IsConsistent _ _ _ steps (reaches-IsConsistent secret required code _ r) h
