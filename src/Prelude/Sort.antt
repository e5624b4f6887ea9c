-- ===== src/Prelude/Sort.antt =====
-- Python's order on texts, by code points, and `sorted` as insertion sort.
use Prim.Native.Char.{code}
use mathlib.Core.Path.{◌≡◌, refl}
use mathlib.Core.Logic.{◌↔◌, inl, inr}
use mathlib.Core.Bool.{Bool, true, false, ◌&&◌, ◌||◌}
use mathlib.Core.List.{List, [], ◌∷◌}
use tracecore.Prelude.Tests.{Bool-cases, ltb, eqb, if◌then◌else◌}
use tracecore.Prelude.Text.{String, empty, ◌◃◌}

-- `s <= t`
unfoldable pub text_leb : String → String → Bool
text_leb empty t = true
text_leb (c ◃ s) empty = false
text_leb (c ◃ s) (d ◃ t) = ltb (code c) (code d) || eqb (code c) (code d) && text_leb s t

module _ {ℓ} {A : Type ℓ} (le : A → A → Bool) where
  -- Before the first item that is not smaller, so that the sort is stable.
  unfoldable pub insert_sorted : A → List A → List A
  insert_sorted a [] = a ∷ []
  insert_sorted a (b ∷ bs) =
      let rest = insert_sorted a bs in if le a b then a ∷ b ∷ bs else b ∷ rest

  unfoldable pub sort_by : List A → List A
  unfolding insert_sorted
  sort_by [] = []
  sort_by (a ∷ xs) = insert_sorted a (sort_by xs)

  insert_sorted-cons : (a : A) (xs : List A) → insert_sorted a xs ≡ [] → ⊥
  unfolding insert_sorted
  insert_sorted-cons a [] h = cc
  insert_sorted-cons a (b ∷ bs) h = elim (Bool-cases (le a b)) [
    | inl e ↦ let now : a ∷ b ∷ bs ≡ [] = rw e at h in cc
    | inr e ↦ let now : b ∷ insert_sorted a bs ≡ [] = rw e at h in cc
  ]

  pub sort_by-nil_iff : (xs : List A) → (sort_by xs ≡ []) ↔ (xs ≡ [])
  unfolding sort_by
  sort_by-nil_iff [] = (λ h. refl, λ h. refl)
  sort_by-nil_iff (a ∷ xs) = (λ h. absurd (insert_sorted-cons a (sort_by xs) h), λ h. cc)

-- `sorted(texts)`
abbrev pub sorted : List String → List String
sorted ts = sort_by text_leb ts
