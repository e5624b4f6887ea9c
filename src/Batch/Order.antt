-- ===== src/Batch/Order.antt =====
-- The order in which the jobs of a batch are done.
use mathlib.Core.List.{Permᴰ}
use tracecore.Prelude.{
  ℕ, suc, ◌≡◌, refl, sym, ◌∙◌, ap, subst, Bool, Option, List, [], ◌∷◌, String, length, filter, ltb,
  leb, inl, inr, Bool-cases, arith, if◌then◌else◌,
}
use tracecore.Prelude.Dict.{Dict}
use tracecore.Prelude.Sort.{insert_sorted, sort_by}
use tracecore.Value.{Value}
use tracecore.Exc.{Result, ok, ok_inj, >>=-eq-ok}
use tracecore.Batch.{
  BatchJob, BatchResult, Batch, Done, raw_done, batch_result, batch_results, passed_count,
  wall_times, percentile, worker_count, summary_of, run_batch,
}

insert_sorted_comm :
    (a b : ℕ) (xs : List ℕ)
    → insert_sorted leb a (insert_sorted leb b xs) ≡ insert_sorted leb b (insert_sorted leb a xs)
unfolding insert_sorted
insert_sorted_comm a b [] = ground arith
insert_sorted_comm a b (x ∷ xs) = ground (arith, insert_sorted_comm a b xs)

-- The sorted times, one result at a time.
abbrev times_of : List BatchResult → List ℕ
times_of rs = sort_by leb (wall_times rs)

times_of-cons :
    (r : BatchResult) (rs : List BatchResult)
    → times_of (r ∷ rs)
      ≡ (if ltb 0 r.wall_clock then insert_sorted leb r.wall_clock (times_of rs) else times_of rs)
unfolding filter sort_by
times_of-cons r rs = elim (Bool-cases (ltb 0 r.wall_clock)) [
  | inl h ↦ rw h refl
  | inr h ↦ rw h refl
]

times_of_swap :
    (r s : BatchResult) (rs : List BatchResult) → times_of (r ∷ s ∷ rs) ≡ times_of (s ∷ r ∷ rs)
times_of_swap r s rs =
    let c = insert_sorted_comm r.wall_clock s.wall_clock (times_of rs) in
    rw (times_of-cons r (s ∷ rs), times_of-cons s rs, times_of-cons s (r ∷ rs), times_of-cons r rs)
      (elim (Bool-cases (ltb 0 r.wall_clock)) [
        | inl h ↦ elim (Bool-cases (ltb 0 s.wall_clock)) [
          | inl k ↦ rw (h, k) c
          | inr k ↦ rw (h, k) refl
        ]
        | inr h ↦ rw h refl
      ])

passed_count_swap :
    (r s : BatchResult) (rs : List BatchResult)
    → passed_count (r ∷ s ∷ rs) ≡ passed_count (s ∷ r ∷ rs)
unfolding filter
passed_count_swap r s rs = elim (Bool-cases r.success) [
  | inl h ↦ elim (Bool-cases s.success) [ inl k ↦ rw (h, k) refl | inr k ↦ rw (h, k) refl ]
  | inr h ↦ rw h refl
]

passed_count-cons :
    (r : BatchResult) (rs qs : List BatchResult)
    → passed_count rs ≡ passed_count qs
    → passed_count (r ∷ rs) ≡ passed_count (r ∷ qs)
unfolding filter
passed_count-cons r rs qs e = elim (Bool-cases r.success) [
  | inl h ↦ rw h (ap suc e)
  | inr h ↦ rw h e
]

-- What a summary is made of does not depend on the order of the results.
abbrev Agree : List BatchResult → List BatchResult → Type 0
Agree rs qs =
    (length rs ≡ length qs) × (passed_count rs ≡ passed_count qs) × (times_of rs ≡ times_of qs)

Permᴰ-Agree : {rs qs : List BatchResult} → Permᴰ rs qs → Agree rs qs
Permᴰ-Agree Permᴰ.nil = (refl, refl, refl)
Permᴰ-Agree (Permᴰ.cons {a} {b} {l₁} {l₂} e p) =
    let (l, c, t) = Permᴰ-Agree p in
    rw (← e) (
      ap suc l,
      passed_count-cons a l₁ l₂ c,
      times_of-cons a l₁ ∙ rw t refl ∙ sym (times_of-cons a l₂),
    )
Permᴰ-Agree (Permᴰ.swap {a} {b} {a'} {b'} {l} e f) =
    rw (← e, ← f) (refl, passed_count_swap a b l, times_of_swap a b l)
Permᴰ-Agree (Permᴰ.trans p q) =
    let (l, c, t) = Permᴰ-Agree p in let (m, d, u) = Permᴰ-Agree q in (l ∙ m, c ∙ d, t ∙ u)

Permᴰ-length : {ds es : List (BatchJob × Done)} → Permᴰ ds es → length ds ≡ length es
Permᴰ-length Permᴰ.nil = refl
Permᴰ-length (Permᴰ.cons e p) = ap suc (Permᴰ-length p)
Permᴰ-length (Permᴰ.swap e f) = refl
Permᴰ-length (Permᴰ.trans p q) = Permᴰ-length p ∙ Permᴰ-length q

module _ (check : Dict Value → Result (Bool × List String)) (strict_spec : Bool) where
  abbrev result_of : BatchJob × Done → Result BatchResult
  result_of d = batch_result check strict_spec (d.0) (raw_done (d.1))

  -- The results of a list that starts with a job.
  batch_results-cons :
      (d : BatchJob × Done) (ds : List (BatchJob × Done)) (rs : List BatchResult)
      → batch_results check strict_spec (d ∷ ds) ≡ ok rs
      → (r : BatchResult) × (qs : List BatchResult) × (result_of d ≡ ok r)
        × (batch_results check strict_spec ds ≡ ok qs)
        × (r ∷ qs ≡ rs)
  unfolding batch_results
  batch_results-cons (j, d) ds rs h =
      let (r, a, h1) = >>=-eq-ok (result_of (j, d)) _ h in
      let (qs, b, h2) = >>=-eq-ok (batch_results check strict_spec ds) _ h1 in
      (r, qs, a, b, ok_inj h2)

  cons-batch_results :
      (d : BatchJob × Done) (ds : List (BatchJob × Done)) (r : BatchResult) (qs : List BatchResult)
      → result_of d ≡ ok r
      → batch_results check strict_spec ds ≡ ok qs
      → batch_results check strict_spec (d ∷ ds) ≡ ok (r ∷ qs)
  unfolding batch_results
  cons-batch_results (j, d) ds r qs a b = rw (a, b) refl

  batch_results-Permᴰ :
      {ds es : List (BatchJob × Done)}
      → Permᴰ ds es
      → (rs : List BatchResult) → batch_results check strict_spec ds ≡ ok rs
      → (qs : List BatchResult) × (batch_results check strict_spec es ≡ ok qs) × Permᴰ rs qs
  unfolding batch_results
  batch_results-Permᴰ Permᴰ.nil rs h = ([], refl, subst (λ w. Permᴰ w []) (ok_inj h) Permᴰ.nil)
  batch_results-Permᴰ (Permᴰ.cons {a} {b} {l₁} {l₂} e p) rs h =
      let (r, ts, x, y, z) = batch_results-cons a l₁ rs h in
      let (qs, k, m) = batch_results-Permᴰ p ts y in
      (
        r ∷ qs,
        rw (← e) (cons-batch_results a l₂ r qs x k),
        subst (λ w. Permᴰ w (r ∷ qs)) z (Permᴰ.cons refl m),
      )
  batch_results-Permᴰ (Permᴰ.swap {a} {b} {a'} {b'} {l} e f) rs h =
      let (r, ts, x, y, z) = batch_results-cons a (b ∷ l) rs h in
      let (s, us, v, w, t) = batch_results-cons b l ts y in
      (
        s ∷ r ∷ us,
        rw (← e, ← f) (cons-batch_results b (a ∷ l) s (r ∷ us) v (cons-batch_results a l r us x w)),
        subst (λ i. Permᴰ i (s ∷ r ∷ us)) (ap (λ i. r ∷ i) t ∙ z) (Permᴰ.swap refl refl),
      )
  batch_results-Permᴰ (Permᴰ.trans p q) rs h =
      let (ts, k, m) = batch_results-Permᴰ p rs h in
      let (us, l, n) = batch_results-Permᴰ q ts k in (us, l, Permᴰ.trans m n)

  -- Two batches with the same summary and the same verdict, whose results differ in their order.
  pub record SameButOrder (b c : Batch) : Type 0 where
    pub verdict : c.is_ok ≡ b.is_ok
    pub summary : c.summary ≡ b.summary
    pub results : Permᴰ b.results c.results

  summary_of-SameButOrder :
      (n_workers : ℕ) (rs qs : List BatchResult)
      → Permᴰ rs qs
      → SameButOrder (summary_of n_workers rs) (summary_of n_workers qs)
  unfolding percentile
  summary_of-SameButOrder n_workers rs qs p =
      let (l, c, t) = Permᴰ-Agree p in
      record { verdict = rw (l, c) refl; summary = rw (l, c, t) refl; results = p }

  -- The order in which the jobs are done does not matter: if a batch returns for one order, it returns
  -- for each other order, with the same verdict and the same summary, times included, and with the
  -- same results but for their order.
  pub run_batch-SameButOrder :
      (workers : Option ℕ) (cpus : ℕ) (ds es : List (BatchJob × Done))
      → Permᴰ ds es
      → (b : Batch) → run_batch check strict_spec workers cpus ds ≡ ok b
      → (c : Batch) × (run_batch check strict_spec workers cpus es ≡ ok c) × SameButOrder b c
  unfolding run_batch
  run_batch-SameButOrder workers cpus [] [] p b h = (
    b,
    h,
    subst (λ x. SameButOrder x x) (ok_inj h)
        (record { verdict = refl; summary = refl; results = Permᴰ.nil }),
  )
  run_batch-SameButOrder workers cpus [] (e ∷ es) p b h = absurd (omega (arith, Permᴰ-length p))
  run_batch-SameButOrder workers cpus (d ∷ ds) [] p b h = absurd (omega (arith, Permᴰ-length p))
  run_batch-SameButOrder workers cpus (d ∷ ds) (e ∷ es) p b h =
      let (rs, r, made) = >>=-eq-ok (batch_results check strict_spec (d ∷ ds)) _ h in
      let (qs, q, same) = batch_results-Permᴰ p rs r in
      let n = worker_count workers cpus (length (d ∷ ds)) in
      (
        summary_of n qs,
        rw (q, sym (Permᴰ-length p)) refl,
        subst (λ x. SameButOrder x (summary_of n qs)) (ok_inj made)
            (summary_of-SameButOrder n rs qs same),
      )
