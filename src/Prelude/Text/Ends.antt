-- ===== src/Prelude/Text/Ends.antt =====
-- Laws of `endswith` and of stripping at the left.
use Prim.Native.Nat.{ℕ, suc, ◌+◌, ◌≤◌}
use mathlib.Core.Path.{◌≡◌, ap}
use mathlib.Core.Logic.{inl, inr}
use mathlib.Core.Bool.{Bool, true}
use native.Mathlib.Omega.{arith}
use text.Mathlib.Text.{◌==◌}
use text.Mathlib.TextEquality.{eq_iff}
use text.Mathlib.TextPositions.{eq_refl}
use tracecore.Prelude.Tests.{Bool-cases}
use tracecore.Prelude.Text.{String, empty, ◌◃◌, ◌<>◌, ends_with, lstrip_by}

abbrev pub length : String → ℕ
length empty = 0
length (c ◃ s) = suc (length s)

pub length-append : (s t : String) → length (s <> t) ≡ length s + length t
length-append empty t = omega arith
length-append (c ◃ s) t = omega (arith, length-append s t)

pub length-lstrip_by : (p : ℕ → Bool) (s : String) → length (lstrip_by p s) ≤ length s
unfolding lstrip_by
length-lstrip_by p empty = omega arith
length-lstrip_by p (c ◃ s) = ground (arith, length-lstrip_by p s)

-- A text that ends with another is something and that other.
pub ends_with-append : (s p : String) → ends_with s p ≡ true → (t : String) × (s ≡ t <> p)
unfolding ends_with
ends_with-append empty p h = (empty, (eq_iff empty p).0 h)
ends_with-append (c ◃ s) p h = elim (Bool-cases ((c ◃ s) == p)) [
  | inl e ↦ (empty, (eq_iff (c ◃ s) p).0 e)
  | inr e ↦ let (t, q) = ends_with-append s p (ground arith) in (c ◃ t, ap (λ r. c ◃ r) q)
]

pub append-ends_with : (t p : String) → ends_with (t <> p) p ≡ true
unfolding ends_with
append-ends_with empty empty = eq_refl empty
append-ends_with empty (c ◃ p) = ground (arith, eq_refl (c ◃ p))
append-ends_with (c ◃ t) p = ground (arith, append-ends_with t p)
