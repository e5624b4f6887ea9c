-- ===== src/Prelude/Text/Split.antt =====
-- Laws of `split` and of the tests on texts.
use tracecore.Prelude.Tests.{eqb, eqb_iff, Bool-cases}
use tracecore.Prelude.Lists.{All}
use Prim.Native.Nat.{ℕ}
use Prim.Native.Char.{Char, code}
use mathlib.Core.Path.{◌≡◌, refl, sym, ap, ◌∙◌}
use mathlib.Core.Logic.{◌≢◌, inl, inr}
use mathlib.Core.Bool.{true, false}
use mathlib.Core.List.{List, [], ◌∷◌, ◌++◌}
use native.Mathlib.Omega.{arith}
use text.Mathlib.TextEquality.{eq_iff, Char-path}
use tracecore.Prelude.Text.{String, empty, ◌◃◌, ◌<>◌, split, push_head, is_infix, starts_with, join}

-- A split is never empty.
abbrev pub head : List String → String
head [] = empty
head (p ∷ ps) = p

abbrev pub tail : List String → List String
tail [] = []
tail (p ∷ ps) = ps

pub split-cons : (d : ℕ) (s : String) → split d s ≡ head (split d s) ∷ tail (split d s)
unfolding split
split-cons d empty = refl
split-cons d (c ◃ s) = elim (Bool-cases (eqb (code c) d)) [
  | inl e ↦ rw e
  | inr e ↦ rw e (rw (split-cons d s))
]

pub push_head-append :
    (c : Char) (d : ℕ) (s : String) (qs : List String)
    → push_head c (split d s) ++ qs ≡ push_head c (split d s ++ qs)
push_head-append c d s qs = rw (split-cons d s)

-- Splitting at a separator splits the two sides.
pub split-append :
    (d : ℕ) (s : String) (c : Char) (t : String)
    → code c ≡ d
    → split d (s <> c ◃ t) ≡ split d s ++ split d t
unfolding split
split-append d empty c t e = rw ((eqb_iff (code c) d).1 e)
split-append d (a ◃ s) c t e = elim (Bool-cases (eqb (code a) d)) [
  | inl q ↦ rw q (ap (λ ps. empty ∷ ps) (split-append d s c t e))
  | inr q ↦
      rw q (ap (push_head a) (split-append d s c t e) ∙ sym (push_head-append a d s (split d t)))
]

-- A text that starts with another is that other and a rest.
pub starts_with-append : (s p : String) → starts_with s p ≡ true → (t : String) × (s ≡ p <> t)
unfolding starts_with
starts_with-append s empty h = (s, refl)
starts_with-append empty (d ◃ p) h = cc
starts_with-append (c ◃ s) (d ◃ p) h =
    let (t, e) = starts_with-append s p (ground arith) in
    let q : c ≡ d = Char-path c d (ground arith) in (t, cc)

pub append-starts_with : (p t : String) → starts_with (p <> t) p ≡ true
unfolding starts_with
append-starts_with empty t = refl
append-starts_with (c ◃ p) t = ground (arith, append-starts_with p t)

pub append_assoc : (s t u : String) → (s <> t) <> u ≡ s <> (t <> u)
append_assoc empty t u = refl
append_assoc (c ◃ s) t u = ap (λ r. c ◃ r) (append_assoc s t u)

pub append-empty : (s : String) → s <> empty ≡ s
append-empty empty = refl
append-empty (c ◃ s) = ap (λ r. c ◃ r) (append-empty s)

-- The first piece and the separator behind it begin the text with the separator behind it.
starts_with-head : (s : String) → starts_with (s <> "/") (head (split b'/' s) <> "/") ≡ true
unfolding split starts_with
starts_with-head empty = refl
starts_with-head (c ◃ s) = elim (Bool-cases (eqb (code c) b'/')) [
  | inl e ↦ rw e (ground arith)
  | inr e ↦ rw (e, split-cons b'/' s) (ground (arith, starts_with-head s))
]

-- Without "/../" no piece but the first is "..".
dotdot_tail :
    (s : String) → is_infix "/../" (s <> "/") ≡ false → All (λ p. p ≢ "..") (tail (split b'/' s))
unfolding split is_infix
dotdot_tail empty h = tt
dotdot_tail (c ◃ s) h = elim (Bool-cases (eqb (code c) b'/')) [
  | inl e ↦
      rw (e, split-cons b'/' s)
        (
          λ q.
              let begins : starts_with (s <> "/") "../" ≡ true = rw q at (starts_with-head s) in
              ground arith,
          dotdot_tail s (ground arith),
        )
  | inr e ↦ rw (e, split-cons b'/' s) (dotdot_tail s (ground arith))
]

-- A text that begins with a slash and does not hold "/../", nor end in "/..", has no piece "..".
pub split-ne-dotdot :
    (s : String)
    → starts_with s "/" ≡ true
    → is_infix "/../" (s <> "/") ≡ false
    → All (λ p. p ≢ "..") (split b'/' s)
unfolding split starts_with
split-ne-dotdot empty b h = cc
split-ne-dotdot (c ◃ s) b h =
    let e : eqb (code c) b'/' ≡ true = ground arith in
    rw e (ground (arith, eq_iff "" ".."), rw e at (dotdot_tail (c ◃ s) h))

join-push_head :
    (c : Char) (p : String) (ps : List String)
    → join "/" (push_head c (p ∷ ps)) ≡ c ◃ join "/" (p ∷ ps)
unfolding join
join-push_head c p [] = refl
join-push_head c p (q ∷ ps) = refl

join-slash : (p : String) (ps : List String) → join "/" ("" ∷ p ∷ ps) ≡ "/" <> join "/" (p ∷ ps)
unfolding join
join-slash p ps = refl

-- Joining undoes splitting.
pub join-split : (s : String) → join "/" (split b'/' s) ≡ s
unfolding split
join-split empty = unfold join in refl
join-split (c ◃ s) =
    let rejoined : join "/" (head (split b'/' s) ∷ tail (split b'/' s)) ≡ s =
      rw (← split-cons b'/' s) (join-split s) in
    elim (Bool-cases (eqb (code c) b'/')) [
      | inl e ↦
          let slash : Char = "/" in
          let q : c ≡ slash = Char-path c slash (ground arith) in
          rw e (rw (split-cons b'/' s) (join-slash _ _ ∙ cc (rejoined, q)))
      | inr e ↦ rw (e, split-cons b'/' s) (join-push_head c _ _ ∙ ap (λ r. c ◃ r) rejoined)
    ]

join-append :
    (p : String) (ps : List String) (q : String) (qs : List String)
    → join "/" ((p ∷ ps) ++ q ∷ qs) ≡ join "/" (p ∷ ps) <> "/" <> join "/" (q ∷ qs)
unfolding join
join-append p [] q qs = refl
join-append p (r ∷ ps) q qs =
    rw (join-append r ps q qs)
      (sym (append_assoc p ("/" <> join "/" (r ∷ ps)) ("/" <> join "/" (q ∷ qs))))

pub join-split-append :
    (s q : String) (qs : List String)
    → join "/" (split b'/' s ++ q ∷ qs) ≡ s <> "/" <> join "/" (q ∷ qs)
join-split-append s q qs =
    let rejoined : join "/" (head (split b'/' s) ∷ tail (split b'/' s)) ≡ s =
      rw (← split-cons b'/' s) (join-split s) in
    rw (split-cons b'/' s) (join-append _ _ q qs ∙ ap (λ r. r <> "/" <> join "/" (q ∷ qs)) rejoined)
