-- ===== src/Tasks/Chain.antt =====
-- `MockChainAPI` of tasks/rate_limited_chain/service.py, the service that the agent is to take
-- through a handshake. A payload is a dict of any values; a reply is a dict of values.
pub mod Token
pub mod History
pub mod Script
pub mod Task
use tracecore.Prelude.{
  ℕ, suc, ◌+◌, ◌-◌, String, Bool, true, false, not, ◌&&◌, ◌||◌, Option, none, some, List, [], ◌∷◌,
  ◌==◌, ltb, if◌then◌else◌, all,
}
use tracecore.Prelude.Int.{ℤ, pos, negsuc}
use tracecore.Prelude.Dict.{Dict}
use tracecore.Prelude.Text.{◌<>◌, of_nat}
use tracecore.Value.{Value, null, bool, int, str, obj, get_or_null}
use tracecore.Value.Equality.{value_eq}
use tracecore.Exc.{Result, ok, raised, value_error}

pub record Service : Type 0 where
  pub secret : String
  pub required_payload : Dict String
  pub chain_code : String
  pub now : ℕ
  pub blocked_until : ℕ
  pub handshake_window : ℕ
  pub transient_pending : Bool
  pub handshake_id : Option String
  pub handshake_expires_at : Option ℕ
  pub handshake_confirmed : Bool
  pub rate_limit_hits : ℕ
  pub token_calls : ℕ

-- The constructor with its defaults.
abbrev pub new_service : String → Dict String → String → Service
new_service secret required_payload chain_code = record {
  secret = secret;
  required_payload = required_payload;
  chain_code = chain_code;
  now = 0;
  blocked_until = 3;
  handshake_window = 4;
  transient_pending = true;
  handshake_id = none;
  handshake_expires_at = none;
  handshake_confirmed = false;
  rate_limit_hits = 0;
  token_calls = 0;
}

unfoldable pub advance : ℤ → Service → Result Service
advance (pos n) s = ok (record s { now = s.now + n })
advance (negsuc n) s = raised (value_error "steps must be non-negative")

abbrev pub value_or_null : Option String → Value
value_or_null none = null
value_or_null (some t) = str t

-- `status`
unfoldable pub status : Service → Dict Value
status s =
    ("now", int (pos s.now))
    ∷ ("blocked_until", int (pos s.blocked_until))
    ∷ ("handshake_id", value_or_null s.handshake_id)
    ∷ ("handshake_confirmed", bool s.handshake_confirmed)
    ∷ ("rate_limit_hits", int (pos s.rate_limit_hits))
    ∷ ("token_calls", int (pos s.token_calls))
    ∷ []

-- `payload.get(key) != value` for no entry of the required payload.
abbrev pub has_required : Dict String → Dict Value → Bool
has_required required payload =
    all (λ entry. value_eq (get_or_null (entry.0) payload) (str (entry.1))) required

-- `_payload_is_valid`
abbrev pub payload_is_valid : Option (Dict Value) → Service → Bool
payload_is_valid none s = false
payload_is_valid (some payload) s = has_required s.required_payload payload

-- `_expected_phrase`
abbrev pub expected_phrase : Option String → String → Option String
expected_phrase none chain_code = none
expected_phrase (some id) chain_code =
    if id == "" then none else some ("CHAIN-" <> (id <> ("-" <> chain_code)))

abbrev pub failure : String → String → Dict Value
failure error message = ("ok", bool false) ∷ ("error", str error) ∷ ("message", str message) ∷ []

-- `self.handshake_expires_at is not None and self.now > self.handshake_expires_at`
abbrev pub expired : Option ℕ → ℕ → Bool
expired none now = false
expired (some at) now = ltb at now

-- `payload.get(key) != expected`, negated.
abbrev pub says : String → Option String → Dict Value → Bool
says key expected payload = value_eq (get_or_null key payload) (value_or_null expected)

abbrev handshake : Service → Dict Value × Service
handshake s =
    let id = "hs-" <> of_nat s.now in
    let expires_at = s.now + s.handshake_window in
    (
      ("ok", bool true) ∷ ("handshake_id", str id) ∷ ("expires_at_step", int (pos expires_at)) ∷ [],
      record s {
        handshake_id = some id;
        handshake_expires_at = some expires_at;
        handshake_confirmed = false;
      },
    )

abbrev pub confirmed_reply : Dict Value
confirmed_reply = ("ok", bool true) ∷ ("message", str "handshake_confirmed") ∷ []

abbrev commit_with : Dict Value → Service → Dict Value × Service
commit_with payload s =
    if not (says "handshake_id" s.handshake_id payload)
    then (failure "invalid_handshake" "unknown handshake_id", s)
    else if expired s.handshake_expires_at s.now
    then (failure "handshake_expired" "request a new handshake", s)
    else if not (says "response" (expected_phrase s.handshake_id s.chain_code) payload)
    then (failure "wrong_phrase" "response does not match template", s)
    else (confirmed_reply, record s { handshake_confirmed = true })

abbrev handshake_commit : Option (Dict Value) → Service → Dict Value × Service
handshake_commit none s = (failure "invalid_handshake" "payload required", s)
handshake_commit (some []) s = (failure "invalid_handshake" "payload required", s)
handshake_commit (some (e ∷ payload)) s = commit_with (e ∷ payload) s

abbrev pub token_reply : Service → Dict Value
token_reply s = ("ok", bool true) ∷ ("data", obj (("token", str s.secret) ∷ [])) ∷ []

-- The replies to a payload that is valid, once the handshake is confirmed.
abbrev token_with : Dict Value → Service → Dict Value × Service
token_with payload s =
    if not (says "handshake_id" s.handshake_id payload)
    then (failure "invalid_handshake" "stale handshake", s)
    else if ltb s.now s.blocked_until
    then (
      ("ok", bool false)
          ∷ ("error", str "rate_limited")
          ∷ ("retry_after", int (pos (s.blocked_until - s.now)))
          ∷ ("message", str "Respect retry window before calling /token again")
          ∷ [],
      record s { rate_limit_hits = s.rate_limit_hits + 1 },
    )
    else if s.transient_pending
    then (
      failure "temporary_failure" "Chain service hiccup. Retry immediately.",
      record s { transient_pending = false },
    )
    else (token_reply s, s)

abbrev valid_token : Option (Dict Value) → Service → Dict Value × Service
valid_token none s = (failure "bad_request" "payload missing required fields or values", s)
valid_token (some payload) s =
    if not (has_required s.required_payload payload)
    then (failure "bad_request" "payload missing required fields or values", s)
    else token_with payload s

abbrev counted_token : Option (Dict Value) → Service → Dict Value × Service
counted_token payload s =
    if not s.handshake_confirmed
    then (failure "handshake_required" "complete handshake first", s)
    else valid_token payload s

abbrev token : Option (Dict Value) → Service → Dict Value × Service
token payload s = counted_token payload (record s { token_calls = s.token_calls + 1 })

unfoldable pub call : String → Option (Dict Value) → Service → Dict Value × Service
unfolding value_eq get_or_null of_nat
call endpoint payload s =
    if endpoint == "/handshake"
    then handshake s
    else if endpoint == "/handshake_commit"
    then handshake_commit payload s
    else if endpoint == "/token"
    then token payload s
    else (failure "not_found" "unknown endpoint", s)
