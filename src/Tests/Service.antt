-- ===== src/Tests/Service.antt =====
-- The service of the chain task, and the taxonomy of failures, at concrete inputs.
use tracecore.Prelude.{String, ◌≡◌, refl, arith, true, false, none, some, [], ◌∷◌}
use tracecore.Prelude.Int.{pos}
use tracecore.Prelude.Dict.{Dict, get, put}
use tracecore.Value.{Value, null, bool, int, str, obj, truthy, get_or_null}
use tracecore.Value.Equality.{value_eq, IsValue, value_eq_refl}
use tracecore.Failures.{classify_failure, ensure_failure_type}
use tracecore.Failures.Taxonomy.{IsClassified, ensure_failure_type-IsClassified}
use tracecore.Tasks.Chain.{Service, new_service, call, advance, token_reply}
use tracecore.Tasks.Chain.Token.{IsReady, call-token}
use tracecore.Tasks.Chain.History.{start, requested, IsConsistent, reaches-IsConsistent}
use tracecore.Tasks.Chain.Script.{call-token_unopened, call-token_flow}

abbrev required : Dict String
required = ("client_id", "agent_bench_chain") ∷ ("nonce", "1007") ∷ []

abbrev made : Service
made = new_service "ACCESS-100007" required "CHAIN1007"

-- A payload with the required entries, and one that names the first handshake as well.
abbrev bare : Dict Value
bare = ("client_id", str "agent_bench_chain") ∷ ("nonce", str "1007") ∷ []

abbrev complete : Dict Value
complete = ("handshake_id", str "hs-0") ∷ bare

abbrev answer : Dict Value
answer = ("response", str "CHAIN-hs-0-CHAIN1007") ∷ []

-- The service after the handshake, at the end of the block, once the hiccup is over.
abbrev ready : Service
ready = record made {
  handshake_id = some "hs-0";
  handshake_expires_at = some 4;
  handshake_confirmed = true;
  now = 3;
  transient_pending = false;
}

call-token_example : IsReady (some complete) ready
unfolding call value_eq get_or_null get
call-token_example = (call-token (some complete) ready).0 refl

call-token_unopened_example :
    ((call "/token"
        (some bare)
        ((call "/token" (some bare) (record made { handshake_confirmed = true; now = 3 })).1)).0
      ≡ token_reply made)
    × (made.secret ≡ "ACCESS-100007")
    × (made.handshake_id ≡ none)
unfolding call advance value_eq get_or_null get
call-token_unopened_example =
    call-token_unopened "ACCESS-100007" "CHAIN1007" required ("note", null) [] bare
      (record made { handshake_confirmed = true; now = 3 }) refl refl refl refl refl

call-token_flow_example :
    ((call "/token"
        (some complete)
        ((call "/token" (some complete) (record ready { transient_pending = true })).1)).0
      ≡ token_reply ready)
    × (ready.secret ≡ made.secret)
unfolding call advance value_eq get_or_null get
call-token_flow_example =
    call-token_flow ("handshake_id", str "hs-0") answer complete made
      (record ready { transient_pending = true }) 3 refl refl refl refl (omega arith) refl

reaches-IsConsistent_example :
    IsConsistent made ((call "/token" (some bare) ((call "/handshake" none made).1)).1)
reaches-IsConsistent_example =
    reaches-IsConsistent "ACCESS-100007" required "CHAIN1007" _
      (requested (requested start "/handshake" none) "/token" (some bare))

abbrev lost : Dict Value
lost = ("success", bool false) ∷ ("termination_reason", str "steps_exhausted") ∷ []

ensure_failure_type-IsClassified_example : IsClassified lost (
    ("success", bool false)
    ∷ ("termination_reason", str "steps_exhausted")
    ∷ ("failure_type", str "budget_exhausted")
    ∷ [])
unfolding ensure_failure_type classify_failure truthy get_or_null get put
ensure_failure_type-IsClassified_example = ensure_failure_type-IsClassified lost _ refl

value_eq_refl_example :
    value_eq
      (obj (("ok", bool true) ∷ ("n", int (pos 3)) ∷ []))
      (obj (("ok", bool true) ∷ ("n", int (pos 3)) ∷ []))
    ≡ true
unfolding IsValue
value_eq_refl_example =
    value_eq_refl (obj (("ok", bool true) ∷ ("n", int (pos 3)) ∷ [])) (refl, tt, (refl, tt, tt))
