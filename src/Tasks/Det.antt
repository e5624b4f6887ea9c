-- ===== src/Tasks/Det.antt =====
-- `MockDeterministicService` of tasks/deterministic_rate_service/service.py. A call raises where the
-- source's does: `str.replace` with `None`.
pub mod Log
pub mod Handshake
use tracecore.Prelude.{
  ℕ, ◌+◌, ◌-◌, String, Bool, true, false, not, ◌&&◌, ◌||◌, Option, none, some, List, [], ◌∷◌, ◌++◌,
  ◌==◌, ltb, if◌then◌else◌,
}
use tracecore.Prelude.Int.{ℤ, pos, negsuc}
use tracecore.Prelude.Dict.{Dict}
use tracecore.Prelude.Text.{◌<>◌, of_nat, replace}
use tracecore.Value.{Value, null, bool, int, str, obj, get_or_null}
use tracecore.Value.Equality.{value_eq}
use tracecore.Exc.{Result, ok, raised, value_error, type_error}
use tracecore.Tasks.Payload.{has_entries, token_of}

pub record Det : Type 0 where
  pub secret : String
  pub required_payload : Dict Value
  pub handshake_phrase : String
  pub blocked_until : ℕ
  pub transient_once : Bool
  pub now : ℕ
  pub handshake_id : Option String
  pub handshake_confirmed : Bool
  pub token_calls : ℕ
  pub rate_limit_hits : ℕ
  pub fatal_errors : ℕ
  pub history : List (Dict Value)

abbrev pub new_det : String → Dict Value → String → Det
new_det secret required_payload handshake_phrase = record {
  secret = secret;
  required_payload = required_payload;
  handshake_phrase = handshake_phrase;
  blocked_until = 2;
  transient_once = true;
  now = 0;
  handshake_id = none;
  handshake_confirmed = false;
  token_calls = 0;
  rate_limit_hits = 0;
  fatal_errors = 0;
  history = [];
}

unfoldable pub advance : ℤ → Det → Result Det
advance (pos n) s = ok (record s { now = s.now + n })
advance (negsuc n) s = raised (value_error "steps must be non-negative")

abbrev pub id_value : Option String → Value
id_value none = null
id_value (some t) = str t

unfoldable pub status : Det → Dict Value
status s =
    ("now", int (pos s.now))
    ∷ ("handshake_id", id_value s.handshake_id)
    ∷ ("handshake_confirmed", bool s.handshake_confirmed)
    ∷ ("blocked_until", int (pos s.blocked_until))
    ∷ ("token_calls", int (pos s.token_calls))
    ∷ ("rate_limit_hits", int (pos s.rate_limit_hits))
    ∷ []

-- `payload.get("handshake_id") == self.handshake_id`
abbrev pub names_handshake : Dict Value → Det → Bool
names_handshake payload s = value_eq (get_or_null "handshake_id" payload) (id_value s.handshake_id)

-- `_payload_is_valid`
abbrev pub valid_payload : Option (Dict Value) → Det → Bool
valid_payload none s = false
valid_payload (some payload) s = has_entries s.required_payload payload && names_handshake payload s

-- An entry of the history.
abbrev pub log_entry : String → Dict Value → ℕ → Dict Value
log_entry endpoint result now =
    ("endpoint", str endpoint) ∷ ("result", obj result) ∷ ("now", int (pos now)) ∷ []

-- `_record`, and the return of the result.
abbrev pub reply : String → Dict Value → Det → Result (Dict Value) × Det
reply endpoint result s =
    (ok result, record s { history = s.history ++ log_entry endpoint result s.now ∷ [] })

abbrev pub refusal : String → Dict Value
refusal error = ("ok", bool false) ∷ ("error", str error) ∷ []

abbrev handshake : Det → Result (Dict Value) × Det
handshake s =
    let id = "hs-" <> of_nat s.now in
    reply "/handshake" (("ok", bool true) ∷ ("handshake_id", str id) ∷ [])
      (record s { handshake_id = some id; handshake_confirmed = false })

abbrev fatal : String → String → Det → Result (Dict Value) × Det
fatal endpoint error s =
    reply endpoint (refusal error) (record s { fatal_errors = s.fatal_errors + 1 })

-- The phrase is compared once the payload names the handshake; there may be none.
abbrev commit_phrase : Option String → Dict Value → Det → Result (Dict Value) × Det
commit_phrase none payload s = (raised (type_error "replace"), s)
commit_phrase (some id) payload s =
    if not (
      value_eq (get_or_null "response" payload)
        (str (replace "<handshake_id>" id s.handshake_phrase)))
    then fatal "/handshake_commit" "wrong_phrase" s
    else reply "/handshake_commit" (("ok", bool true) ∷ ("message", str "handshake_confirmed") ∷ [])
        (record s { handshake_confirmed = true })

abbrev handshake_commit : Option (Dict Value) → Det → Result (Dict Value) × Det
handshake_commit none s = fatal "/handshake_commit" "invalid_handshake" s
handshake_commit (some []) s = fatal "/handshake_commit" "invalid_handshake" s
handshake_commit (some (e ∷ payload)) s =
    if not (names_handshake (e ∷ payload) s)
    then fatal "/handshake_commit" "invalid_handshake" s
    else commit_phrase s.handshake_id (e ∷ payload) s

-- The branches of `/token` after the call is counted.
abbrev token : Bool → Bool → Det → Result (Dict Value) × Det
token confirmed valid s =
    if not confirmed
    then reply "/token" (refusal "handshake_required") s
    else if not valid
    then fatal "/token" "bad_request" s
    else if ltb s.now s.blocked_until
    then reply "/token"
        (("ok", bool false)
          ∷ ("error", str "rate_limited")
          ∷ ("retry_after", int (pos (s.blocked_until - s.now)))
          ∷ ("message", str "Respect retry window")
          ∷ [])
        (record s { rate_limit_hits = s.rate_limit_hits + 1 })
    else if s.transient_once
    then reply "/token"
        (("ok", bool false)
          ∷ ("error", str "temporary_failure")
          ∷ ("message", str "Server hiccup, retry immediately")
          ∷ [])
        (record s { transient_once = false })
    else reply "/token" (token_of s.secret) s

unfoldable pub call : String → Option (Dict Value) → Det → Result (Dict Value) × Det
call endpoint payload s =
    if endpoint == "/handshake"
    then handshake s
    else if endpoint == "/handshake_commit"
    then handshake_commit payload s
    else if endpoint == "/token"
    then token s.handshake_confirmed (valid_payload payload s)
        (record s { token_calls = s.token_calls + 1 })
    else reply endpoint (refusal "not_found") s
