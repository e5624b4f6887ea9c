-- ===== src/Tasks/Det/Handshake.antt =====
-- A commit before any handshake.
use tracecore.Prelude.{◌≡◌, refl, String, none, some, ◌∷◌}
use tracecore.Prelude.Dict.{Dict}
use tracecore.Value.{Value, null, get_or_null}
use tracecore.Value.Equality.{value_eq}
use tracecore.Exc.{raised, type_error}
use tracecore.Tasks.Det.{Det, call}

-- While no handshake has been opened, a commit whose payload is not empty and names no handshake
-- raises a type error, and the service stays as it was.
pub call-handshake_commit_raises :
    (s : Det) (e : String × Value) (payload : Dict Value)
    → s.handshake_id ≡ none
    → get_or_null "handshake_id" (e ∷ payload) ≡ null
    → call "/handshake_commit" (some (e ∷ payload)) s ≡ (raised (type_error "replace"), s)
unfolding call value_eq
call-handshake_commit_raises s e payload h n = rw (n, h) refl
