-- ===== src/Tasks/Api/Accounts.antt =====
-- How the counts of the service go together.
use tracecore.Prelude.{
  ℕ, ◌+◌, ◌≤◌, ◌≡◌, refl, sym, false≢true, String, Bool, true, false, not, Option, List, [], ◌∷◌,
  ◌==◌, ltb, length, arith, Bool-cases, inl, inr,
}
use tracecore.Prelude.Int.{ℤ, pos, negsuc}
use tracecore.Prelude.Dict.{Dict, get}
use tracecore.Value.{Value, null, str, get_or_null}
use tracecore.Value.Equality.{value_eq}
use tracecore.Exc.{ok, ok_inj, ok-ne-raised}
use tracecore.Tasks.Payload.{complete}
use tracecore.Tasks.Api.{Api, new_api, advance, answer, call}

abbrev pub counted : Bool → ℕ
counted true = 1
counted false = 0

-- The replies with this `error`, where a reply that has none has null.
abbrev pub number : Value → List (Dict Value) → ℕ
number error [] = 0
number error (reply ∷ replies) =
    counted (value_eq (get_or_null "error" reply) error) + number error replies

-- The counts of a service are those of the replies that it gave: each reply is of one of the five
-- kinds, at most one is the transient failure, and a token was given only when that was behind and
-- the block had ended.
pub record IsAccounted (secret : String) (required : Dict Value) (replies : List (Dict Value))
    (s : Api) : Type 0 where
  pub same_secret : s.secret ≡ secret
  pub same_payload : s.required_payload ≡ required
  pub attempts : s.call_attempts ≡ length replies
  pub limited : s.rate_limit_hits ≡ number (str "rate_limited") replies
  pub bad_payloads : s.payload_errors ≡ number (str "bad_request") replies
  pub transient :
      counted (not s.transient_failure_pending) ≡ number (str "temporary_failure") replies
  pub kinds :
      number (str "not_found") replies
        + number (str "bad_request") replies
        + number (str "rate_limited") replies
        + number (str "temporary_failure") replies
        + number null replies
      ≡ length replies
  pub given : counted s.access_granted ≤ number null replies
  pub only_given : s.access_granted ≡ false → number null replies ≡ 0
  pub granted :
      s.access_granted ≡ true → (s.transient_failure_pending ≡ false) × (s.blocked_until ≤ s.now)
  pub settled : s.transient_failure_pending ≡ false → s.blocked_until ≤ s.now

-- A service that calls and the passing of time lead to, with the replies of the calls, the last one
-- first.
pub data Reaches (made : Api) : List (Dict Value) → Api → Type 0 where
  start : Reaches made [] made
  requested :
      {replies : List (Dict Value)} {s : Api}
      → Reaches made replies s
      → (endpoint : String) (payload : Option (Dict Value))
      → Reaches made ((call endpoint payload s).0 ∷ replies) ((call endpoint payload s).1)
  waited :
      {replies : List (Dict Value)} {s t : Api}
      → Reaches made replies s
      → (steps : ℤ) → advance steps s ≡ ok t
      → Reaches made replies t

module _ (secret : String) (required : Dict Value) where
  abbrev Answered : Bool → Bool → List (Dict Value) → Api → Type 0
  Answered known valid replies s =
      let (reply, t) = answer known valid (record s { call_attempts = s.call_attempts + 1 }) in
      IsAccounted secret required (reply ∷ replies) t

  answer-IsAccounted :
      (known valid : Bool) (replies : List (Dict Value)) (s : Api)
      → IsAccounted secret required replies s
      → Answered known valid replies s
  unfolding value_eq get_or_null get
  answer-IsAccounted false valid replies s a =
      (ground (arith, a.given, a.only_given, a.granted, a.settled))
  answer-IsAccounted true false replies s a =
      (ground (arith, a.given, a.only_given, a.granted, a.settled))
  answer-IsAccounted true true replies s a = elim (Bool-cases (ltb s.now s.blocked_until)) [
    | inl e ↦ rw e (ground (arith, a.given, a.only_given, a.granted, a.settled))
    | inr e ↦ elim (Bool-cases s.transient_failure_pending) [
      | inl t ↦ rw (e, t) (ground (arith, a.given, a.only_given, a.granted, a.settled))
      | inr t ↦ rw (e, t) (ground (arith, a.given, a.only_given, a.granted, a.settled))
    ]
  ]

  waited-IsAccounted :
      (steps : ℤ) (replies : List (Dict Value)) (s t : Api)
      → IsAccounted secret required replies s
      → advance steps s ≡ ok t
      → IsAccounted secret required replies t
  unfolding advance
  waited-IsAccounted (pos n) replies s t a h = rw (← ok_inj h) (record {
    same_secret = a.same_secret;
    same_payload = a.same_payload;
    attempts = a.attempts;
    limited = a.limited;
    bad_payloads = a.bad_payloads;
    transient = a.transient;
    kinds = a.kinds;
    given = a.given;
    only_given = a.only_given;
    granted = λ g. ((a.granted g).0, omega (arith, (a.granted g).1));
    settled = λ g. omega (arith, a.settled g);
  })
  waited-IsAccounted (negsuc n) replies s t a h = absurd (ok-ne-raised (sym h))

  -- Whatever is called and however time passes: the secret and the payload stay; the attempts are
  -- the replies, and each reply is a refusal of an unknown endpoint, a bad payload, a limited call,
  -- the transient failure or a token; the service's counts of bad payloads and of limited calls are
  -- the numbers of those replies; the transient failure was one reply if it is behind, and else
  -- none; access is granted exactly when a token was given, and only once the transient failure was
  -- behind and the block had ended.
  pub reaches-IsAccounted :
      (replies : List (Dict Value)) (s : Api)
      → Reaches (new_api secret required) replies s
      → IsAccounted secret required replies s
  unfolding call
  reaches-IsAccounted _ _ start = record {
    same_secret = refl;
    same_payload = refl;
    attempts = refl;
    limited = refl;
    bad_payloads = refl;
    transient = refl;
    kinds = refl;
    given = omega arith;
    only_given = λ g. refl;
    granted = λ g. absurd (false≢true g);
    settled = λ g. absurd (false≢true (sym g));
  }
  reaches-IsAccounted _ _ (requested {replies} {s} r endpoint payload) =
      answer-IsAccounted (endpoint == "/token") (complete s.required_payload payload) replies s
        (reaches-IsAccounted replies s r)
  reaches-IsAccounted replies t (waited {s} r steps h) =
      waited-IsAccounted steps replies s t (reaches-IsAccounted replies s r) h
