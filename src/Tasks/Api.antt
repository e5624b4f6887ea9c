-- ===== src/Tasks/Api.antt =====
-- `MockRateLimitedAPI` of tasks/rate_limited_api/service.py.
pub mod Accounts
use tracecore.Prelude.{
  ℕ, ◌+◌, ◌-◌, String, Bool, true, false, not, Option, none, some, List, [], ◌∷◌, ◌==◌, ltb,
  if◌then◌else◌,
}
use tracecore.Prelude.Int.{ℤ, pos, negsuc}
use tracecore.Prelude.Dict.{Dict}
use tracecore.Value.{Value, bool, int, str, obj}
use tracecore.Exc.{Result, ok, raised, value_error}
use tracecore.Tasks.Payload.{complete, token_of}

pub record Api : Type 0 where
  pub secret : String
  pub required_payload : Dict Value
  pub now : ℕ
  pub blocked_until : ℕ
  pub transient_failure_pending : Bool
  pub access_granted : Bool
  pub rate_limit_hits : ℕ
  pub call_attempts : ℕ
  pub payload_errors : ℕ

-- The constructor with its defaults.
abbrev pub new_api : String → Dict Value → Api
new_api secret required_payload = record {
  secret = secret;
  required_payload = required_payload;
  now = 0;
  blocked_until = 2;
  transient_failure_pending = true;
  access_granted = false;
  rate_limit_hits = 0;
  call_attempts = 0;
  payload_errors = 0;
}

unfoldable pub advance : ℤ → Api → Result Api
advance (pos n) s = ok (record s { now = s.now + n })
advance (negsuc n) s = raised (value_error "steps must be non-negative")

-- The branches after the call is counted.
abbrev pub answer : Bool → Bool → Api → Dict Value × Api
answer known valid s =
    if not known
    then (("ok", bool false) ∷ ("error", str "not_found") ∷ [], s)
    else if not valid
    then (
      ("ok", bool false)
          ∷ ("error", str "bad_request")
          ∷ ("message", str "Payload missing required fields or values.")
          ∷ [],
      record s { payload_errors = s.payload_errors + 1 },
    )
    else if ltb s.now s.blocked_until
    then (
      ("ok", bool false)
          ∷ ("error", str "rate_limited")
          ∷ ("retry_after", int (pos (s.blocked_until - s.now)))
          ∷ ("message", str "Too many requests. Respect Retry-After before retrying.")
          ∷ [],
      record s { rate_limit_hits = s.rate_limit_hits + 1 },
    )
    else if s.transient_failure_pending
    then (
      ("ok", bool false)
          ∷ ("error", str "temporary_failure")
          ∷ ("message", str "Upstream service hiccup. Safe to retry immediately.")
          ∷ [],
      record s { transient_failure_pending = false },
    )
    else (token_of s.secret, record s { access_granted = true })

unfoldable pub call : String → Option (Dict Value) → Api → Dict Value × Api
call endpoint payload s =
    answer (endpoint == "/token") (complete s.required_payload payload)
      (record s { call_attempts = s.call_attempts + 1 })

unfoldable pub status : Api → Dict Value
status s =
    ("now", int (pos s.now))
    ∷ ("blocked_until", int (pos s.blocked_until))
    ∷ ("token_retrieved", bool s.access_granted)
    ∷ ("rate_limit_hits", int (pos s.rate_limit_hits))
    ∷ ("call_attempts", int (pos s.call_attempts))
    ∷ ("payload_errors", int (pos s.payload_errors))
    ∷ ("required_payload", obj s.required_payload)
    ∷ []
