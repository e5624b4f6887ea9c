-- ===== src/Env/Network.antt =====
-- `NetworkGuard` of agent_bench/env/environment.py. Letters and digits are those of ASCII.
pub mod Match
pub mod Check
use tracecore.Prelude.{
  ℕ, String, Bool, true, false, not, ◌&&◌, ◌||◌, Option, none, some, List, [], ◌∷◌, ◌==◌, eqb,
  if◌then◌else◌, any, code,
}
use tracecore.Prelude.Text.{
  empty, ◌◃◌, starts_with, ends_with, is_infix, before, after, has_char, strip, rstrip, lstrip_by,
  lower, is_digits, to_int,
}
use tracecore.Exc.{
  Result, ok, raised, ◌>>=◌, sandbox_violation, scheme_denied, port_denied, net_denied,
}

-- `s[1:]` and `s[:-1]`
abbrev pub drop_first : String → String
drop_first empty = empty
drop_first (c ◃ s) = s

unfoldable pub drop_last : String → String
drop_last empty = empty
drop_last (c ◃ s) = let rest = drop_last s in if s == empty then empty else c ◃ rest

-- `NetworkGuard._normalize_host`
unfoldable pub normalize_host : String → String
unfolding drop_last strip lower
normalize_host host =
    let normalized = rstrip b'.' (lower (strip host)) in
    if starts_with normalized "[" && ends_with normalized "]"
    then drop_last (drop_first normalized)
    else normalized

-- `s.split("://", 1)`, where the text holds the separator.
before_scheme : String → String
before_scheme empty = empty
before_scheme (c ◃ s) =
    let rest = before_scheme s in if starts_with (c ◃ s) "://" then empty else c ◃ rest

after_scheme : String → String
after_scheme empty = empty
after_scheme (c ◃ s) =
    let rest = after_scheme s in
    if starts_with (c ◃ s) "://" then drop_first (drop_first s) else rest

-- `s.rsplit(d, 1)`: the text before the last occurrence, and what follows it.
before_last : ℕ → String → String
before_last d empty = empty
before_last d (c ◃ s) =
    let rest = before_last d s in if has_char d s then c ◃ rest else before d (c ◃ s)

after_last : ℕ → String → String
after_last d empty = empty
after_last d (c ◃ s) = let rest = after_last d s in if has_char d s then rest else after d (c ◃ s)

pub record Target : Type 0 where
  pub host : String
  pub scheme : Option String
  pub port : Option ℕ

abbrev port_of : String → Option ℕ
port_of s = if is_digits s then some (to_int s) else none

-- The host text and the port, from the netloc.
split_port : String → String × Option ℕ
unfolding before_last after_last
split_port raw =
    if starts_with raw "[" && has_char b']' raw
    then (let remainder = after b']' raw in
        (
          lstrip_by (λ n. eqb n b'[') (before b']' raw),
          (if starts_with remainder ":" then port_of (drop_first remainder) else none),
        ))
    else if has_char b':' raw
    then (before_last b':' raw, port_of (after_last b':' raw))
    else (raw, none)

-- The scheme, and the rest of the text.
split_scheme : String → Option String × String
unfolding before_scheme after_scheme
split_scheme raw =
    if is_infix "://" raw
    then (some (lower (strip (before_scheme raw))), after_scheme raw)
    else (none, raw)

-- `NetworkGuard._extract_host`
unfoldable pub extract_host : String → Target
unfolding split_scheme split_port
extract_host host =
    let (scheme, rest) = split_scheme (strip host) in
    let (raw, port) = split_port (before b'/' rest) in
    record { host = rstrip b'.' (lower (strip raw)); scheme = scheme; port = port }

-- `NetworkGuard._match`
unfoldable pub match_entry : String → String → Bool
match_entry entry host =
    if entry == "*"
    then true
    else if starts_with entry "*."
    then (let suffix = drop_first entry in
        ends_with host suffix && not (host == lstrip_by (λ n. eqb n b'.') suffix))
    else host == entry

abbrev pub NetworkGuard : Type 0
NetworkGuard = List String

-- `NetworkGuard.__init__`
unfoldable pub new_guard : List String → NetworkGuard
new_guard [] = []
new_guard (h ∷ hs) = let rest = new_guard hs in if h == "" then rest else normalize_host h ∷ rest

-- `NetworkGuard.allowed`
unfoldable pub allowed : NetworkGuard → String → Bool
allowed hosts host =
    let normalized = (extract_host host).host in
    if normalized == "" then false else any (λ entry. match_entry entry normalized) hosts

-- An empty scheme is let through, as `if scheme and …` does.
scheme_ok : Option String → Bool
scheme_ok none = true
scheme_ok (some s) = s == "" || s == "http" || s == "https"

port_ok : Option ℕ → Bool
port_ok none = true
port_ok (some p) = eqb p 80 || eqb p 443

abbrev scheme_text : Option String → String
scheme_text none = ""
scheme_text (some s) = s

abbrev port_number : Option ℕ → ℕ
port_number none = 0
port_number (some p) = p

-- `NetworkGuard.inspect`
unfoldable pub inspect : String → Result Target
unfolding scheme_ok port_ok
inspect host =
    let target = extract_host host in
    if not (scheme_ok target.scheme)
    then raised (sandbox_violation (scheme_denied (scheme_text target.scheme)))
    else if not (port_ok target.port)
    then raised (sandbox_violation (port_denied (port_number target.port)))
    else ok target

-- `NetworkGuard.check`
unfoldable pub check : NetworkGuard → String → Result String
unfolding inspect allowed
check hosts host = do
  target ← inspect host
  if allowed hosts host then ok target.host else raised (sandbox_violation (net_denied host))
