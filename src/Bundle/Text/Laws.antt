-- ===== src/Bundle/Text/Laws.antt =====
-- Laws of lines, of `strip` and of a cut.
use tracecore.Prelude.{
  ℕ, String, ◌≡◌, ◌≢◌, refl, ap, Bool, true, false, some, List, [], ◌∷◌, arith, code, All, eq_iff,
}
use tracecore.Prelude.Text.{
  empty, ◌◃◌, ◌<>◌, push_head, starts_with, strip, lstrip_by, rstrip_by, is_space,
}
use tracecore.Bundle.Text.{lines_by, cut, ends_line}
use tracecore.Bundle.Write.{written_lines}

-- No character of the text passes the test.
abbrev pub Lacks : (ℕ → Bool) → String → Type 0
Lacks p empty = Unit
Lacks p (c ◃ s) = (p (code c) ≡ false) × Lacks p s

-- A text of one character or more, none of them a space.
abbrev pub IsWord : String → Type 0
IsWord s = (s ≢ "") × Lacks is_space s

lines_by-cons :
    (p : ℕ → Bool) (t s : String)
    → p 10 ≡ true
    → Lacks p t
    → lines_by p (t <> "\n" <> s) ≡ t ∷ lines_by p s
unfolding lines_by
lines_by-cons p empty s n h = rw n refl
lines_by-cons p (c ◃ t) s n h = rw h.0 (ap (push_head c) (lines_by-cons p t s n h.1))

-- The lines of what was written line by line.
pub lines_by-written_lines :
    (p : ℕ → Bool) (ts : List String)
    → p 10 ≡ true
    → All (Lacks p) ts
    → lines_by p (written_lines ts) ≡ ts
unfolding written_lines
lines_by-written_lines p [] n h = unfold lines_by in refl
lines_by-written_lines p (t ∷ ts) n h =
    rw (lines_by-cons p t (written_lines ts) n h.0, lines_by-written_lines p ts n h.1) refl

append-ne-empty : (s t : String) → t ≢ "" → s <> t ≢ ""
append-ne-empty empty t n = n
append-ne-empty (c ◃ s) t n = λ e. cc

rstrip_by-append :
    (p : ℕ → Bool) (s t : String) → t ≢ "" → rstrip_by p t ≡ t → rstrip_by p (s <> t) ≡ s <> t
unfolding rstrip_by
rstrip_by-append p empty t n h = h
rstrip_by-append p (c ◃ s) t n h =
    rw (rstrip_by-append p s t n h) (ground (arith, eq_iff (s <> t) "", append-ne-empty s t n))

-- A word in front of a text that is not stripped at the right.
pub strip-append :
    (s t : String) → IsWord s → t ≢ "" → rstrip_by is_space t ≡ t → strip (s <> t) ≡ s <> t
unfolding strip lstrip_by
strip-append empty t w n h = absurd (w.0 refl)
strip-append (c ◃ s) t w n h = rw w.1.0 (rstrip_by-append is_space (c ◃ s) t n h)

-- A word is cut off at the two spaces behind it.
pub cut-append : (s t : String) → Lacks is_space s → cut (s <> "  " <> t) ≡ some (s, t)
unfolding cut starts_with is_space
cut-append empty t h = refl
cut-append (c ◃ s) t h = rw (cut-append s t h.1) (ground arith)

pub Lacks-append : (p : ℕ → Bool) (s t : String) → Lacks p s → Lacks p t → Lacks p (s <> t)
Lacks-append p empty t hs ht = ht
Lacks-append p (c ◃ s) t hs ht = (hs.0, Lacks-append p s t hs.1 ht)

-- A word does not end a line.
pub Lacks-ends_line : (s : String) → Lacks is_space s → Lacks ends_line s
unfolding is_space
Lacks-ends_line empty h = tt
Lacks-ends_line (c ◃ s) h = (ground arith, Lacks-ends_line s h.1)
