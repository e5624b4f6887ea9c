-- ===== src/Baseline/Keyed.antt =====
-- The buckets by their keys, and what the runs of a key make of its bucket.
use tracecore.Prelude.{
  ◌≡◌, refl, sym, ◌∙◌, ap, subst, Bool, true, false, false≢true, none, some, List, [], ◌∷◌, ◌==◌,
  eq_iff, eq_refl, filter, filter-keep, filter-drop, All, Bool-cases, Option-cases, inl, inr, arith,
  if◌then◌else◌,
}
use tracecore.Prelude.Dict.{Dict}
use tracecore.Value.{Value, truthy, get_or_null}
use tracecore.Exc.{Result, ok, ◌>>=◌, ok_inj, >>=-eq-ok}
use tracecore.Baseline.Summary.{
  Bucket, add_run, Key, same_key, Buckets, key_of, bucket_at, set_bucket, add_keyed, collect,
}

-- A run of an agent on a task.
abbrev pub has_key : Key → Dict Value → Bool
has_key k run = elim (key_of run) [ none ↦ false | some j ↦ same_key j k ]

abbrev pub succeeded : Dict Value → Bool
succeeded run = truthy (get_or_null "success" run)

has_key-none : (k : Key) (run : Dict Value) → key_of run ≡ none → has_key k run ≡ false
has_key-none k run h = rw (has_key, h) refl

has_key-some : (k j : Key) (run : Dict Value) → key_of run ≡ some j → has_key k run ≡ same_key j k
has_key-some k j run h = rw (has_key, h) refl

same_key_refl : (k : Key) → same_key k k ≡ true
same_key_refl (a, t) = rw (eq_refl a, eq_refl t) refl

same_key-eq : (j k : Key) → same_key j k ≡ true → j ≡ k
same_key-eq (a, t) (b, u) h =
    let s : (a == b) ≡ true = ground arith in
    let v : (t == u) ≡ true = ground arith in rw ((eq_iff a b).0 s, (eq_iff t u).0 v) refl

bucket_at-set_bucket :
    (j k : Key) (b : Bucket) (bs : Buckets)
    → bucket_at k (set_bucket j b bs) ≡ (if same_key j k then b else bucket_at k bs)
unfolding bucket_at set_bucket
bucket_at-set_bucket j k b [] = refl
bucket_at-set_bucket j k b ((i, c) ∷ bs) = elim (Bool-cases (same_key i j)) [
  | inl s ↦
      rw (s, same_key-eq i j s)
        (elim (Bool-cases (same_key j k)) [ inl t ↦ rw t refl | inr t ↦ rw t refl ])
  | inr s ↦ rw s (elim (Bool-cases (same_key i k)) [
    | inl t ↦ rw (t, apart i j k s t) refl
    | inr t ↦ rw t (bucket_at-set_bucket j k b bs)
  ])
]
  where
    apart : (i j k : Key) → same_key i j ≡ false → same_key i k ≡ true → same_key j k ≡ false
    apart i j k s t = elim (Bool-cases (same_key j k)) [
      | inl u ↦
          let e : same_key i j ≡ true = rw (same_key-eq j k u) t in absurd (false≢true (sym s ∙ e))
      | inr u ↦ u
    ]

-- A key stands once.
unfoldable pub IsKeyed : Buckets → Type 0
IsKeyed [] = Unit
IsKeyed ((j, b) ∷ bs) = All (λ e. same_key j (e.0) ≡ false) bs × IsKeyed bs

set_bucket-All :
    (P : Key → Type 0) (k : Key) (b : Bucket) (bs : Buckets)
    → P k
    → All (λ e. P (e.0)) bs
    → All (λ e. P (e.0)) (set_bucket k b bs)
unfolding set_bucket
set_bucket-All P k b [] p h = (p, tt)
set_bucket-All P k b ((j, c) ∷ bs) p h = elim (Bool-cases (same_key j k)) [
  | inl s ↦ rw s h
  | inr s ↦ rw s (h.0, set_bucket-All P k b bs p (h.1))
]

set_bucket-IsKeyed :
    (k : Key) (b : Bucket) (bs : Buckets) → IsKeyed bs → IsKeyed (set_bucket k b bs)
unfolding set_bucket IsKeyed
set_bucket-IsKeyed k b [] h = (tt, tt)
set_bucket-IsKeyed k b ((j, c) ∷ bs) h = elim (Bool-cases (same_key j k)) [
  | inl s ↦ rw s h
  | inr s ↦
      rw s
        (set_bucket-All (λ i. same_key j i ≡ false) k b bs s (h.0), set_bucket-IsKeyed k b bs (h.1))
]

-- The entries hold what is found at their keys.
pub IsKeyed-bucket_at : (bs : Buckets) → IsKeyed bs → All (λ e. bucket_at (e.0) bs ≡ e.1) bs
unfolding bucket_at IsKeyed
IsKeyed-bucket_at [] h = tt
IsKeyed-bucket_at ((j, b) ∷ bs) h =
    (rw (same_key_refl j) refl, later bs (h.0) (IsKeyed-bucket_at bs (h.1)))
  where
    later :
        (cs : Buckets)
        → All (λ e. same_key j (e.0) ≡ false) cs
        → All (λ e. bucket_at (e.0) bs ≡ e.1) cs
        → All (λ e. bucket_at (e.0) ((j, b) ∷ bs) ≡ e.1) cs
    later [] d h = tt
    later ((i, c) ∷ cs) d h = (rw (d.0) (h.0), later cs (d.1) (h.1))

-- A run after the other into one bucket.
unfoldable pub add_runs : List (Dict Value) → Bucket → Result Bucket
add_runs [] b = ok b
add_runs (run ∷ runs) b = do c ← add_run run b; add_runs runs c

-- The bucket of a key is what the runs of that key make of it.
pub collect-bucket_at :
    (k : Key) (runs : List (Dict Value)) (bs cs : Buckets)
    → IsKeyed bs
    → collect runs bs ≡ ok cs
    → (add_runs (filter (has_key k) runs) (bucket_at k bs) ≡ ok (bucket_at k cs)) × IsKeyed cs
unfolding collect add_runs filter
collect-bucket_at k [] bs cs i h =
    (ap (λ x. ok (bucket_at k x)) (ok_inj h), subst IsKeyed (ok_inj h) i)
collect-bucket_at k (run ∷ runs) bs cs i h = elim (Option-cases (key_of run)) [
  | inl n ↦
      let ih = collect-bucket_at k runs bs cs i (rw n at h) in
      (
        ap (λ w. add_runs w (bucket_at k bs))
              (filter-drop (has_key k) run runs (has_key-none k run n))
            ∙ ih.0,
        ih.1,
      )
  | inr (j, s) ↦
      let chain : (add_keyed (some j) run bs >>= (λ x. collect runs x)) ≡ ok cs = rw s at h in
      let (mid, m, rest) = >>=-eq-ok (add_keyed (some j) run bs) _ chain in
      let (b, a, e) = >>=-eq-ok (add_run run (bucket_at j bs)) _ m in
      let keyed = subst IsKeyed (ok_inj e) (set_bucket-IsKeyed j b bs i) in
      let ih = collect-bucket_at k runs mid cs keyed rest in
      let at_k = ap (bucket_at k) (sym (ok_inj e)) ∙ bucket_at-set_bucket j k b bs in
      elim (Bool-cases (same_key j k)) [
        | inl t ↦
            let first : add_run run (bucket_at k bs) ≡ ok b = rw (← same_key-eq j k t) a in
            let now : bucket_at k mid ≡ b = at_k ∙ rw t refl in
            (
              ap (λ w. add_runs w (bucket_at k bs))
                    (filter-keep (has_key k) run runs (has_key-some k j run s ∙ t))
                  ∙ ap (λ r. r >>= (λ c. add_runs (filter (has_key k) runs) c)) first
                  ∙ ap (add_runs (filter (has_key k) runs)) (sym now)
                  ∙ ih.0,
              ih.1,
            )
        | inr t ↦
            let now : bucket_at k mid ≡ bucket_at k bs = at_k ∙ rw t refl in
            (
              ap (λ w. add_runs w (bucket_at k bs))
                    (filter-drop (has_key k) run runs (has_key-some k j run s ∙ t))
                  ∙ ap (add_runs (filter (has_key k) runs)) (sym now)
                  ∙ ih.0,
              ih.1,
            )
      ]
]
