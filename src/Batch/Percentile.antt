-- ===== src/Batch/Percentile.antt =====
-- The percentile of a list of times.
use tracecore.Prelude.{
  ℕ, zero, suc, ◌<◌, ◌≡◌, refl, none, some, List, [], ◌∷◌, length, get_elem?, leb, Any, ◌⊎◌, inl,
  inr, Bool-cases, arith,
}
use tracecore.Prelude.Sort.{insert_sorted, sort_by, sort_by-nil_iff}
use tracecore.Batch.{index_of, percentile}

-- A number is one of a list.
abbrev pub IsAmong : ℕ → List ℕ → Type 0
IsAmong v xs = Any (λ x. x ≡ v) xs

insert_sorted-IsAmong :
    (v a : ℕ) (xs : List ℕ) → IsAmong v (insert_sorted leb a xs) → IsAmong v (a ∷ xs)
unfolding insert_sorted
insert_sorted-IsAmong v a [] m = m
insert_sorted-IsAmong v a (x ∷ xs) m = elim (Bool-cases (leb a x)) [
  | inl e ↦ rw e at m
  | inr e ↦
      let rest : (x ≡ v) ⊎ IsAmong v (insert_sorted leb a xs) = rw e at m in
      elim rest [
        | inl s ↦ inr (inl s)
        | inr n ↦ elim (insert_sorted-IsAmong v a xs n) [ inl s ↦ inl s | inr q ↦ inr (inr q) ]
      ]
]

sort_by-IsAmong : (v : ℕ) (xs : List ℕ) → IsAmong v (sort_by leb xs) → IsAmong v xs
unfolding sort_by
sort_by-IsAmong v [] m = m
sort_by-IsAmong v (x ∷ xs) m = elim (insert_sorted-IsAmong v x (sort_by leb xs) m) [
  | inl s ↦ inl s
  | inr n ↦ inr (sort_by-IsAmong v xs n)
]

get_elem?-IsAmong : (v : ℕ) (xs : List ℕ) (i : ℕ) → get_elem? xs i ≡ some v → IsAmong v xs
get_elem?-IsAmong v [] i h = cc
get_elem?-IsAmong v (x ∷ xs) zero h = inl (cc)
get_elem?-IsAmong v (x ∷ xs) (suc i) h = inr (get_elem?-IsAmong v xs i h)

get_elem?-in_range : (xs : List ℕ) (i : ℕ) → i < length xs → (v : ℕ) × (get_elem? xs i ≡ some v)
get_elem?-in_range [] i h = absurd (omega (arith, h))
get_elem?-in_range (x ∷ xs) zero h = (x, refl)
get_elem?-in_range (x ∷ xs) (suc i) h = get_elem?-in_range xs i (omega (arith, h))

index_of_lt : (pct n : ℕ) → index_of pct (suc n) < suc n
index_of_lt pct n = ground arith

at_index :
    (pct : ℕ) (xs : List ℕ)
    → (xs ≡ []) ⊎ ((v : ℕ) × (get_elem? xs (index_of pct (length xs)) ≡ some v))
at_index pct [] = inl refl
at_index pct (x ∷ xs) =
    inr (get_elem?-in_range (x ∷ xs) (index_of pct (suc (length xs))) (index_of_lt pct (length xs)))

-- A percentile of a list that is not empty is one of its times, whatever the percentage, and an empty
-- list has none: the index never leaves the list.
pub percentile-IsAmong :
    (values : List ℕ) (pct : ℕ)
    → ((values ≡ []) × (percentile values pct ≡ none))
      ⊎ ((v : ℕ) × (percentile values pct ≡ some v) × IsAmong v values)
unfolding percentile
percentile-IsAmong values pct = elim (at_index pct (sort_by leb values)) [
  | inl e ↦ let empty = (sort_by-nil_iff leb values).0 e in inl (empty, rw e refl)
  | inr (v, h) ↦ inr (v, h, sort_by-IsAmong v values (get_elem?-IsAmong v _ _ h))
]
