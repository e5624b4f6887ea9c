-- ===== src/Env/Network/Check.antt =====
-- What `NetworkGuard.check` lets through.
use tracecore.Prelude.{
  ℕ, String, ◌≡◌, ◌≢◌, refl, ◌↔◌, ◌⊎◌, Bool, true, Option, none, some, arith, eq_iff, Any, any,
  any-Any, Any-any,
}
use tracecore.Exc.{ok}
use tracecore.Env.Network.{
  NetworkGuard, Target, extract_host, match_entry, scheme_ok, port_ok, check,
}
use tracecore.Env.Network.Match.{Matches, match_entry_iff}

abbrev pub SchemeAllowed : Option String → Type 0
SchemeAllowed none = Unit
SchemeAllowed (some s) = (s ≡ "") ⊎ (s ≡ "http") ⊎ (s ≡ "https")

abbrev pub PortAllowed : Option ℕ → Type 0
PortAllowed none = Unit
PortAllowed (some p) = (p ≡ 80) ⊎ (p ≡ 443)

-- The request names a host, by an allowed scheme and port, that an entry of the allowlist matches.
pub record IsPermitted (hosts : NetworkGuard) (t : Target) : Type 0 where
  pub scheme : SchemeAllowed t.scheme
  pub port : PortAllowed t.port
  pub named : t.host ≢ ""
  pub listed : Any (λ entry. Matches entry t.host) hosts

scheme_iff : (s : Option String) → (scheme_ok s ≡ true) ↔ SchemeAllowed s
unfolding scheme_ok
scheme_iff none = (λ _. tt, λ _. refl)
scheme_iff (some s) = ground (arith, eq_iff s "", eq_iff s "http", eq_iff s "https")

port_iff : (p : Option ℕ) → (port_ok p ≡ true) ↔ PortAllowed p
unfolding port_ok
port_iff none = (λ _. tt, λ _. refl)
port_iff (some p) = ground arith

match_any : NetworkGuard → String → Bool
match_any hosts n = any (λ entry. match_entry entry n) hosts

check_tests :
    (hosts : NetworkGuard) (host : String) {n : String}
    → check hosts host ≡ ok n
    → let t = extract_host host in
      (scheme_ok t.scheme ≡ true)
      × (port_ok t.port ≡ true)
      × (t.host ≢ "")
      × (match_any hosts t.host ≡ true)
      × (n ≡ t.host)
unfolding check match_any
check_tests hosts host h = ground (arith, eq_iff (extract_host host).host "")

check_sound :
    (hosts : NetworkGuard) (host n : String)
    → check hosts host ≡ ok n
    → IsPermitted hosts (extract_host host) × (n ≡ (extract_host host).host)
check_sound hosts host n h =
    let (scheme, port, named, listed, e) = check_tests hosts host h in
    let t = extract_host host in
    (
      record {
        scheme = (scheme_iff t.scheme).0 scheme;
        port = (port_iff t.port).0 port;
        named = named;
        listed =
            any-Any (λ entry. match_entry entry t.host) (λ entry. Matches entry t.host)
              (λ entry. (match_entry_iff entry t.host).0) hosts (unfold match_any in listed);
      },
      e,
    )

check_complete :
    (hosts : NetworkGuard) (host : String)
    → IsPermitted hosts (extract_host host)
    → check hosts host ≡ ok (extract_host host).host
unfolding check
check_complete hosts host p =
    let t = extract_host host in
    let scheme : scheme_ok t.scheme ≡ true = (scheme_iff t.scheme).1 p.scheme in
    let port : port_ok t.port ≡ true = (port_iff t.port).1 p.port in
    let listed : any (λ entry. match_entry entry t.host) hosts ≡ true =
      Any-any (λ entry. match_entry entry t.host) (λ entry. Matches entry t.host)
        (λ entry. (match_entry_iff entry t.host).1) hosts p.listed in
    ground (arith, eq_iff t.host "")

-- A request is let through exactly when its scheme is missing, empty, http or https, its port is
-- missing, 80 or 443, and its host is not empty and matched by an entry of the allowlist; it is then
-- let through under that host.
pub check_iff :
    (hosts : NetworkGuard) (host n : String)
    → (check hosts host ≡ ok n)
      ↔ (IsPermitted hosts (extract_host host) × (n ≡ (extract_host host).host))
check_iff hosts host n = (check_sound hosts host n, λ p. rw p.1 (check_complete hosts host p.0))
