-- ===== src/Tasks/Chain/Script.antt =====
-- How an agent gets the token, and how it can without a handshake.
use tracecore.Prelude.{
  ℕ, ◌+◌, ◌≤◌, ◌≡◌, refl, ap, false≢true, String, Bool, true, false, none, some, ◌∷◌, ◌==◌, eq_iff,
  ltb, arith, inl, inr, Bool-cases,
}
use tracecore.Prelude.Int.{pos}
use tracecore.Prelude.Dict.{Dict}
use tracecore.Prelude.Text.{empty, ◌◃◌, ◌<>◌, of_nat}
use tracecore.Value.{Value, str, null, get_or_null}
use tracecore.Value.Equality.{value_eq}
use tracecore.Exc.{ok, ok_inj}
use tracecore.Tasks.Chain.{
  Service, new_service, says, has_required, call, advance, token_reply, confirmed_reply, expired,
  expected_phrase,
}
use tracecore.Tasks.Chain.Token.{call-token}

abbrev settled : Service → Service
settled s = record s { token_calls = s.token_calls + 1; transient_pending = false }

-- The state after the first call, when all but the transient failure is right.
call-settled :
    (payload : Dict Value) (s : Service)
    → s.handshake_confirmed ≡ true
    → has_required s.required_payload payload ≡ true
    → says "handshake_id" s.handshake_id payload ≡ true
    → s.blocked_until ≤ s.now
    → (call "/token" (some payload) s).1 ≡ settled s
unfolding call
call-settled payload s c r h u =
    let early : ltb s.now s.blocked_until ≡ false = ground (arith, u) in
    elim (Bool-cases s.transient_pending) [
      | inl e ↦ rw (c, r, h, early, e) refl
      | inr e ↦ rw (c, r, h, early, e) refl
    ]

-- Once the handshake is confirmed, the payload has every required entry and names the current
-- handshake, and the block has ended, the transient failure costs one call at most: the second of
-- two calls gives the token.
pub call-token_again :
    (payload : Dict Value) (s : Service)
    → s.handshake_confirmed ≡ true
    → has_required s.required_payload payload ≡ true
    → says "handshake_id" s.handshake_id payload ≡ true
    → s.blocked_until ≤ s.now
    → (call "/token" (some payload) ((call "/token" (some payload) s).1)).0 ≡ token_reply s
call-token_again payload s c r h u = rw (call-settled payload s c r h u) (
    (call-token (some payload) (settled s)).1 (record {
      sent = payload;
      given = refl;
      confirmed = c;
      complete = r;
      current = h;
      unblocked = u;
      settled = refl;
    }))

-- Before any handshake, a payload that names neither a handshake nor a response confirms one.
pub call-handshake_commit_unopened :
    (entry : String × Value) (payload : Dict Value) (s : Service)
    → s.handshake_id ≡ none
    → s.handshake_expires_at ≡ none
    → get_or_null "handshake_id" (entry ∷ payload) ≡ null
    → get_or_null "response" (entry ∷ payload) ≡ null
    → call "/handshake_commit" (some (entry ∷ payload)) s
      ≡ (confirmed_reply, record s { handshake_confirmed = true })
unfolding call value_eq
call-handshake_commit_unopened entry payload s i x h r = rw (i, x, h, r) refl

-- A new service gives its token to an agent that never asked for a handshake: one commit that names
-- none, the wait for the end of the block, and two calls with a payload that names none either.
pub call-token_unopened :
    (secret code : String) (required : Dict String) (entry : String × Value)
    (commit payload : Dict Value) (t : Service)
    → get_or_null "handshake_id" (entry ∷ commit) ≡ null
    → get_or_null "response" (entry ∷ commit) ≡ null
    → has_required required payload ≡ true
    → get_or_null "handshake_id" payload ≡ null
    → advance
        (pos 3)
        ((call "/handshake_commit" (some (entry ∷ commit)) (new_service secret required code)).1)
      ≡ ok t
    → ((call "/token" (some payload) ((call "/token" (some payload) t).1)).0 ≡ token_reply t)
      × (t.secret ≡ secret)
      × (t.handshake_id ≡ none)
unfolding advance value_eq
call-token_unopened secret code required entry commit payload t h r v n w =
    let s = new_service secret required code in
    let committed = call-handshake_commit_unopened entry commit s refl refl h r in
    let arrived : record s { handshake_confirmed = true; now = 3 } ≡ t =
      ok_inj (rw committed at w) in
    rw (← arrived) (
      call-token_again payload (record s { handshake_confirmed = true; now = 3 }) refl v (rw n refl)
          (omega arith),
      refl,
      refl,
    )

-- The name and the phrase of the handshake that is opened at a time.
abbrev handshake_name : Service → String
handshake_name s = "hs-" <> of_nat s.now

abbrev phrase : Service → String
phrase s = "CHAIN-" <> (handshake_name s <> ("-" <> s.chain_code))

-- A handshake that has just been opened.
abbrev opened : Service → Service
opened s = record s {
  handshake_id = some (handshake_name s);
  handshake_expires_at = some (s.now + s.handshake_window);
  handshake_confirmed = false;
}

abbrev committed : Service → Service
committed s = record (opened s) { handshake_confirmed = true }

same_text : (t : String) → (t == t) ≡ true
same_text t = (eq_iff t t).1 refl

is_blank : String → Bool
is_blank empty = true
is_blank (c ◃ s) = false

named : (s : Service) → (handshake_name s == "") ≡ false
unfolding is_blank
named s = elim (Bool-cases (handshake_name s == "")) [
  | inr e ↦ e
  | inl e ↦ absurd (false≢true (ap is_blank ((eq_iff (handshake_name s) "").0 e)))
]

call-confirmed :
    (entry : String × Value) (payload : Dict Value) (s : Service)
    → says "handshake_id" s.handshake_id (entry ∷ payload) ≡ true
    → expired s.handshake_expires_at s.now ≡ false
    → says "response" (expected_phrase s.handshake_id s.chain_code) (entry ∷ payload) ≡ true
    → (call "/handshake_commit" (some (entry ∷ payload)) s).1
      ≡ record s { handshake_confirmed = true }
unfolding call
call-confirmed entry payload s h x r = rw (h, x, r) refl

call-opened : (s : Service) → (call "/handshake" none s).1 ≡ opened s
unfolding call
call-opened s = refl

call-committed :
    (entry : String × Value) (commit : Dict Value) (s : Service)
    → get_or_null "handshake_id" (entry ∷ commit) ≡ str (handshake_name s)
    → get_or_null "response" (entry ∷ commit) ≡ str (phrase s)
    → (call "/handshake_commit" (some (entry ∷ commit)) ((call "/handshake" none s).1)).1
      ≡ committed s
unfolding value_eq
call-committed entry commit s h r = rw (call-opened s) (
    call-confirmed entry commit (opened s) (rw h (same_text (handshake_name s))) (ground arith)
      (rw (r, named s) (same_text (phrase s))))

-- From any state of a service, an agent that opens a handshake, commits it with its name and the
-- phrase, waits for the end of the block and calls twice with a payload that has every required
-- entry and names the handshake gets the token, and the secret is the one that the service had.
pub call-token_flow :
    (entry : String × Value) (commit payload : Dict Value) (s t : Service) (steps : ℕ)
    → get_or_null "handshake_id" (entry ∷ commit) ≡ str (handshake_name s)
    → get_or_null "response" (entry ∷ commit) ≡ str (phrase s)
    → has_required s.required_payload payload ≡ true
    → get_or_null "handshake_id" payload ≡ str (handshake_name s)
    → s.blocked_until ≤ s.now + steps
    → advance
        (pos steps)
        ((call "/handshake_commit" (some (entry ∷ commit)) ((call "/handshake" none s).1)).1)
      ≡ ok t
    → ((call "/token" (some payload) ((call "/token" (some payload) t).1)).0 ≡ token_reply t)
      × (t.secret ≡ s.secret)
unfolding advance value_eq
call-token_flow entry commit payload s t steps h r v n u w =
    let arrived : record (committed s) { now = s.now + steps } ≡ t =
      ok_inj (rw (call-committed entry commit s h r) at w) in
    rw (← arrived) (
      call-token_again payload (record (committed s) { now = s.now + steps }) refl v
          (rw n (same_text (handshake_name s))) u,
      refl,
    )
