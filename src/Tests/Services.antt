-- ===== src/Tests/Services.antt =====
-- The services of the other tasks.
use tracecore.Prelude.{refl, ◌≡◌, none, some, [], ◌∷◌}
use tracecore.Prelude.Dict.{Dict, get}
use tracecore.Value.{Value, str, get_or_null}
use tracecore.Exc.{raised, type_error}
use tracecore.Tasks.Api
use tracecore.Tasks.Api.{Api, new_api}
use tracecore.Tasks.Api.Accounts.{start, requested, IsAccounted, reaches-IsAccounted}
use tracecore.Tasks.Det
use tracecore.Tasks.Det.{Det, new_det}
use tracecore.Tasks.Det.Handshake.{call-handshake_commit_raises}

abbrev required : Dict Value
required = ("client_id", str "agent_bench") ∷ []

abbrev api : Api
api = new_api "ACCESS-1" required

-- A call with a bad payload and one that is limited.
abbrev twice : Api
twice = (Api.call "/token" (some required) (Api.call "/token" none api).1).1

reaches-IsAccounted_example :
    IsAccounted "ACCESS-1" required
      ((Api.call "/token" (some required) (Api.call "/token" none api).1).0
        ∷ (Api.call "/token" none api).0
        ∷ [])
      twice
reaches-IsAccounted_example =
    reaches-IsAccounted "ACCESS-1" required _ twice
      (requested (requested start "/token" none) "/token" (some required))

abbrev det : Det
det = new_det "DET-1" required "CONFIRM-<handshake_id>"

call-handshake_commit_raises_example :
    Det.call "/handshake_commit" (some (("response", str "CONFIRM") ∷ [])) det
    ≡ (raised (type_error "replace"), det)
unfolding get_or_null get
call-handshake_commit_raises_example =
    call-handshake_commit_raises det ("response", str "CONFIRM") [] refl refl
