-- ===== src/Baseline/Delta.antt =====
-- What an empty difference of two audits means.
use tracecore.Prelude.{
  ◌↔◌, ◌≡◌, refl, sym, ◌∙◌, ap, true, false, not, none, some, List, [], ◌∷◌, ◌==◌, eq_iff, eq_refl,
  filter, map, is_empty, is_empty_iff, filter-nil_iff, map-nil_iff, All, Any, any-Any, Any-any,
  Bool-cases, inl, inr, arith,
}
use tracecore.Prelude.Sort.{sort_by-nil_iff}
use tracecore.Value.{Value}
use tracecore.Exc.{ok, ok_inj}
use tracecore.Baseline.Audit.{
  Key, key_leb, same_key, has, minus, key_to_io_entry, IoDelta, delta_of, keys_of, io_audit_diff,
}

-- Every key of a list is one of another.
abbrev pub IsWithin : List Key → List Key → Type 0
IsWithin ks js = All (λ k. Any (λ j. j ≡ k) js) ks

same_key_iff : (j k : Key) → (same_key j k ≡ true) ↔ (j ≡ k)
same_key_iff ((a, b), (c, d)) ((e, f), (g, h)) = (
  λ s.
      let p : (a == e) ≡ true = ground arith in
      let q : (b == f) ≡ true = ground arith in
      let r : (c == g) ≡ true = ground arith in
      let t : (d == h) ≡ true = ground arith in
      rw ((eq_iff a e).0 p, (eq_iff b f).0 q, (eq_iff c g).0 r, (eq_iff d h).0 t) refl,
  λ s.
      let p : a ≡ e = ap (λ k. k.0.0) s in
      let q : b ≡ f = ap (λ k. k.0.1) s in
      let r : c ≡ g = ap (λ k. k.1.0) s in
      let t : d ≡ h = ap (λ k. k.1.1) s in
      rw (p, q, r, t, eq_refl e, eq_refl f, eq_refl g, eq_refl h) refl,
)

has_iff : (k : Key) (ks : List Key) → (has k ks ≡ true) ↔ Any (λ j. j ≡ k) ks
has_iff k ks = (
  λ h. any-Any (λ j. same_key j k) (λ j. j ≡ k) (λ j s. (same_key_iff j k).0 s) ks h,
  λ h. Any-any (λ j. same_key j k) (λ j. j ≡ k) (λ j s. (same_key_iff j k).1 s) ks h,
)

All-has : (ks js : List Key) → All (λ k. not (has k js) ≡ false) ks ↔ IsWithin ks js
All-has [] js = (λ h. tt, λ h. tt)
All-has (k ∷ ks) js = (
  λ h.
      let now : has k js ≡ true = ground (arith, h.0) in
      ((has_iff k js).0 now, (All-has ks js).0 (h.1)),
  λ h. let now = (has_iff k js).1 (h.0) in (rw now refl, (All-has ks js).1 (h.1)),
)

-- Nothing is left of a set without another exactly when it is within it.
minus_iff : (ks js : List Key) → (map key_to_io_entry (minus ks js) ≡ []) ↔ IsWithin ks js
minus_iff ks js =
    let m = map-nil_iff key_to_io_entry (minus ks js) in
    let s = sort_by-nil_iff key_leb (filter (λ k. not (has k js)) ks) in
    let f = filter-nil_iff (λ k. not (has k js)) ks in
    (λ h. (All-has ks js).0 (f.0 (s.0 (m.0 h))), λ h. m.1 (s.1 (f.1 ((All-has ks js).1 h))))

pub delta_of_iff : (ks js : List Key) → (delta_of ks js ≡ none) ↔ (IsWithin ks js × IsWithin js ks)
delta_of_iff ks js =
    let a = minus_iff ks js in
    let b = minus_iff js ks in
    let x = is_empty_iff (map key_to_io_entry (minus ks js)) in
    let y = is_empty_iff (map key_to_io_entry (minus js ks)) in
    (
      λ h. elim (Bool-cases (is_empty (map key_to_io_entry (minus js ks)))) [
        | inl q ↦ elim (Bool-cases (is_empty (map key_to_io_entry (minus ks js)))) [
          | inl p ↦ (a.0 (x.0 p), b.0 (y.0 q))
          | inr p ↦ absurd (some-ne-none (rw (q, p) at h))
        ]
        | inr q ↦ absurd (some-ne-none (rw q at h))
      ],
      λ h. rw (x.1 (a.1 (h.0)), y.1 (b.1 (h.1))) refl,
    )
  where
    some-ne-none : {d : IoDelta} → some d ≡ none → ⊥
    some-ne-none e = cc

pub IsWithin-refl : (ks : List Key) → IsWithin ks ks
IsWithin-refl ks = within ks ks (λ k m. m)
  where
    within :
        (ks js : List Key)
        → ((k : Key) → Any (λ j. j ≡ k) ks → Any (λ j. j ≡ k) js)
        → IsWithin ks js
    within [] js h = tt
    within (k ∷ ks) js h = (h k (inl refl), within ks js (λ i m. h i (inr m)))

-- For two audits that can be read, `_io_audit_diff` finds no difference exactly when each key of
-- either, its type, operation, path and host, is a key of the other.
pub io_audit_diff_iff :
    (a b : Value) (ks js : List Key)
    → keys_of a ≡ ok ks
    → keys_of b ≡ ok js
    → (io_audit_diff a b ≡ ok none) ↔ (IsWithin ks js × IsWithin js ks)
unfolding io_audit_diff
io_audit_diff_iff a b ks js h k =
    let d = delta_of_iff ks js in
    let run : io_audit_diff a b ≡ ok (delta_of ks js) = rw (h, k) refl in
    (λ e. d.0 (ok_inj (sym run ∙ e)), λ w. run ∙ ap ok (d.1 w))
