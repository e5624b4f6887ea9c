-- ===== src/Prelude/Text.antt =====
-- Python's string methods that the program uses, by clauses over the native texts.
pub mod Split
pub mod Ends
use Prim.Native.Nat.{ℕ, zero, suc, ◌+◌, ◌-◌, ◌*◌, ◌/◌, ◌%◌}
use Prim.Native.Char.{Char, code}
pub use Prim.Native.String.{String, [] as empty, ◌∷◌ as ◌◃◌}
use mathlib.Core.Bool.{Bool, true, false, not, ◌&&◌, ◌||◌}
use mathlib.Core.List.{List, [], ◌∷◌}
use text.Mathlib.Text.{◌==◌}
use tracecore.Prelude.Tests.{eqb, leb, ltb, if◌then◌else◌}

-- `s + t`, which computes on the first text. (The library's `++` computes on literals alone.)
infixr 65 ◌<>◌
abbrev pub ◌<>◌ : String → String → String
empty <> t = t
(c ◃ s) <> t = c ◃ (s <> t)

-- `s.startswith(p)`
unfoldable pub starts_with : String → String → Bool
starts_with s empty = true
starts_with empty (d ◃ p) = false
starts_with (c ◃ s) (d ◃ p) = eqb (code c) (code d) && starts_with s p

-- `p in s`
unfoldable pub is_infix : String → String → Bool
unfolding starts_with
is_infix p empty = starts_with empty p
is_infix p (c ◃ s) = starts_with (c ◃ s) p || is_infix p s

-- `s.endswith(p)`
unfoldable pub ends_with : String → String → Bool
ends_with empty p = empty == p
ends_with (c ◃ s) p = (c ◃ s) == p || ends_with s p

-- One more character for the first piece.
abbrev pub push_head : Char → List String → List String
push_head c [] = (c ◃ empty) ∷ []
push_head c (p ∷ ps) = (c ◃ p) ∷ ps

-- `s.split(d)` at a character, given by its code.
unfoldable pub split : ℕ → String → List String
split d empty = empty ∷ []
split d (c ◃ s) =
    let pieces = split d s in if eqb (code c) d then empty ∷ pieces else push_head c pieces

-- `s.split(d, 1)`: the text before the first occurrence, and what follows it if there is one.
unfoldable pub before : ℕ → String → String
before d empty = empty
before d (c ◃ s) = if eqb (code c) d then empty else c ◃ before d s

unfoldable pub after : ℕ → String → String
after d empty = empty
after d (c ◃ s) = if eqb (code c) d then s else after d s

-- `d in s` for a character.
unfoldable pub has_char : ℕ → String → Bool
has_char d empty = false
has_char d (c ◃ s) = eqb (code c) d || has_char d s

-- `sep.join(parts)`
unfoldable pub join : String → List String → String
join sep [] = empty
join sep (p ∷ []) = p
join sep (p ∷ q ∷ ps) = p <> sep <> join sep (q ∷ ps)

-- The characters for which Python's `str.isspace` holds.
unfoldable pub is_space : ℕ → Bool
is_space n =
    leb 9 n && leb n 13
    || leb 28 n && leb n 32
    || eqb n 133
    || eqb n 160
    || eqb n 5760
    || leb 8192 n && leb n 8202
    || eqb n 8232
    || eqb n 8233
    || eqb n 8239
    || eqb n 8287
    || eqb n 12288

-- Strips the characters that the test accepts, at the left and at the right.
unfoldable pub lstrip_by : (ℕ → Bool) → String → String
lstrip_by p empty = empty
lstrip_by p (c ◃ s) = if p (code c) then lstrip_by p s else c ◃ s

unfoldable pub rstrip_by : (ℕ → Bool) → String → String
rstrip_by p empty = empty
rstrip_by p (c ◃ s) =
    let rest = rstrip_by p s in if p (code c) && rest == empty then empty else c ◃ rest

-- `s.rstrip(d)` at a character.
abbrev pub rstrip : ℕ → String → String
rstrip d s = rstrip_by (λ n. eqb n d) s

-- `s.strip()`
unfoldable pub strip : String → String
unfolding lstrip_by rstrip_by is_space
strip s = rstrip_by is_space (lstrip_by is_space s)

abbrev nth : String → ℕ → Char → Char
nth empty i c = c
nth (a ◃ s) zero c = a
nth (a ◃ s) (suc i) c = nth s i c

lower_char : Char → Char
lower_char c =
    if leb 65 (code c) && leb (code c) 90
    then nth "abcdefghijklmnopqrstuvwxyz" (code c - 65) c
    else c

-- `s.lower()`, on ASCII letters.
unfoldable pub lower : String → String
unfolding lower_char
lower empty = empty
lower (c ◃ s) = lower_char c ◃ lower s

-- `s.isdigit()`, on ASCII digits, and `int(s)` of such a text.
all_digits : String → Bool
all_digits empty = true
all_digits (c ◃ s) = leb 48 (code c) && leb (code c) 57 && all_digits s

unfoldable pub is_digits : String → Bool
unfolding all_digits
is_digits s = not (s == empty) && all_digits s

abbrev digits_from : ℕ → String → ℕ
digits_from n empty = n
digits_from n (c ◃ s) = digits_from (10 * n + (code c - 48)) s

unfoldable pub to_int : String → ℕ
to_int s = digits_from 0 s

-- `str(n)`, in decimal digits, with fuel for the digits.
abbrev zero_digit : Char
zero_digit = "0"

abbrev digit : ℕ → String
digit n = nth "0123456789" n zero_digit ◃ empty

digits_of : ℕ → ℕ → String
digits_of zero n = empty
digits_of (suc fuel) n =
    let rest = digits_of fuel (n / 10) in if ltb n 10 then digit n else rest <> digit (n % 10)

unfoldable pub of_nat : ℕ → String
unfolding digits_of
of_nat n = digits_of (suc n) n

abbrev chars : String → ℕ
chars empty = 0
chars (c ◃ s) = suc (chars s)

-- `s.replace(old, new)`, where `old` has one character more than `width`: the characters of an
-- occurrence are skipped.
replace_from : ℕ → String → String → ℕ → String → String
unfolding starts_with
replace_from width old new skip empty = empty
replace_from width old new (suc skip) (c ◃ s) = replace_from width old new skip s
replace_from width old new zero (c ◃ s) =
    let occurrence = new <> replace_from width old new width s in
    let other = c ◃ replace_from width old new zero s in
    if starts_with (c ◃ s) old then occurrence else other

-- (An empty `old` is not used by the program.)
abbrev replaced : String → String → String → String
replaced empty new s = s
replaced (c ◃ old) new s = replace_from (chars old) (c ◃ old) new 0 s

unfoldable pub replace : String → String → String → String
unfolding replace_from
replace old new s = replaced old new s
