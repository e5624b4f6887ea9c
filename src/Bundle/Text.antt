-- ===== src/Bundle/Text.antt =====
-- How Python cuts a text into lines, and a line in two.
pub mod Laws
use tracecore.Prelude.{
  ℕ, String, Bool, true, false, ◌&&◌, ◌||◌, Option, none, some, List, [], ◌∷◌, code, eqb, leb,
  if◌then◌else◌, Char,
}
use tracecore.Prelude.Text.{empty, ◌◃◌, push_head, starts_with}
use tracecore.Prelude.Text.Split.{tail}

-- The characters that end a line of a file opened as text.
abbrev pub ends_line : ℕ → Bool
ends_line n = eqb n 10 || eqb n 13

-- Those that end a line for `str.splitlines`.
abbrev pub breaks_line : ℕ → Bool
breaks_line n =
    leb 10 n && leb n 13 || leb 28 n && leb n 30 || eqb n 133 || eqb n 8232 || eqb n 8233

abbrev first_is : ℕ → String → Bool
first_is d empty = false
first_is d (c ◃ s) = eqb (code c) d

-- The lines of a text, without what ends them. A carriage return and a line feed end one line.
unfoldable pub lines_by : (ℕ → Bool) → String → List String
lines_by p empty = []
lines_by p (c ◃ s) =
    let rest = lines_by p s in
    if p (code c)
    then (if eqb (code c) 13 && first_is 10 s then empty ∷ tail rest else empty ∷ rest)
    else push_head c rest

abbrev behind : Char → Option (String × String) → Option (String × String)
behind c none = none
behind c (some (s, t)) = some (c ◃ s, t)

abbrev drop_space : String → String
drop_space empty = empty
drop_space (c ◃ s) = s

-- `line.split("  ", 1)`, if it has two parts.
unfoldable pub cut : String → Option (String × String)
unfolding starts_with
cut empty = none
cut (c ◃ s) =
    let rest = cut s in
    if starts_with (c ◃ s) "  " then some (empty, drop_space s) else behind c rest
