-- ===== src/Tasks/Payload.antt =====
-- What the services of the tasks share: a payload against the required entries, and a reply that
-- carries a token.
use tracecore.Prelude.{String, Bool, Option, none, some, [], ◌∷◌, all}
use tracecore.Prelude.Dict.{Dict}
use tracecore.Value.{Value, bool, str, obj, get_or_null}
use tracecore.Value.Equality.{value_eq}

-- `payload.get(key) != value` for no entry of the required payload.
abbrev pub has_entries : Dict Value → Dict Value → Bool
has_entries required payload =
    all (λ entry. value_eq (get_or_null (entry.0) payload) (entry.1)) required

-- `_payload_is_valid` of tasks/rate_limited_api/service.py
abbrev pub complete : Dict Value → Option (Dict Value) → Bool
complete required none = Bool.false
complete required (some payload) = has_entries required payload

abbrev pub token_of : String → Dict Value
token_of secret = ("ok", bool Bool.true) ∷ ("data", obj (("token", str secret) ∷ [])) ∷ []
