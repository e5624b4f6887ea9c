-- ===== src/Batch/Counts.antt =====
-- The summary of a batch.
use tracecore.Prelude.{
  ℕ, suc, ◌+◌, ◌-◌, ◌≤◌, ◌≡◌, ◌↔◌, refl, sym, ◌∙◌, ap, subst, Bool, true, false, false≢true, Option,
  List, [], ◌∷◌, String, length, filter, map, All, eqb_iff, inl, inr, Bool-cases, arith,
}
use tracecore.Prelude.Dict.{Dict}
use tracecore.Value.{Value}
use tracecore.Exc.{Result, ok, ok_inj, >>=-eq-ok}
use tracecore.Batch.{
  BatchJob, BatchResult, Batch, Done, Raw, completed, broken, raw_done, batch_result, batch_results,
  passed_count, worker_count, summary_of, run_batch,
}

-- The batch accounts for every job, in the order in which they were done.
pub record IsCounted (done : List (BatchJob × Done)) (b : Batch) : Type 0 where
  pub jobs : map (λ r. r.job) b.results ≡ map (λ d. d.0) done
  pub total : (b.summary).total ≡ length done
  pub counts : (b.summary).passed + (b.summary).failures ≡ (b.summary).total
  pub verdict : (b.is_ok ≡ true) ↔ All (λ r. r.success ≡ true) b.results

passed_count_le : (rs : List BatchResult) → passed_count rs ≤ length rs
unfolding filter
passed_count_le [] = omega arith
passed_count_le (r ∷ rs) = elim (Bool-cases r.success) [
  | inl h ↦ rw h (omega (arith, passed_count_le rs))
  | inr h ↦ rw h (omega (arith, passed_count_le rs))
]

all_passed_iff :
    (rs : List BatchResult) → (passed_count rs ≡ length rs) ↔ All (λ r. r.success ≡ true) rs
unfolding filter
all_passed_iff [] = (λ h. tt, λ h. refl)
all_passed_iff (r ∷ rs) = elim (Bool-cases r.success) [
  | inl h ↦
      let ih = all_passed_iff rs in
      rw h (λ p. (refl, ih.0 (omega (arith, p))), λ q. omega (arith, ih.1 (q.1)))
  | inr h ↦
      rw h (λ p. absurd (omega (arith, p, passed_count_le rs)), λ q. absurd (false≢true (q.0)))
]

length-map {ℓ κ} :
    {A : Type ℓ} {B : Type κ} (f : A → B) (xs : List A) → length (map f xs) ≡ length xs
length-map f [] = refl
length-map f (x ∷ xs) = ap suc (length-map f xs)

module _ (check : Dict Value → Result (Bool × List String)) (strict_spec : Bool) where
  batch_result-job :
      (s : Bool) (j : BatchJob) (raw : Raw) (r : BatchResult)
      → batch_result check s j raw ≡ ok r
      → r.job ≡ j
  batch_result-job s j (broken wall e) r h = ap (λ x. x.job) (sym (ok_inj h))
  batch_result-job false j (completed wall result) r h = ap (λ x. x.job) (sym (ok_inj h))
  batch_result-job true j (completed wall result) r h =
      let (report, c, e) = >>=-eq-ok (check result) _ h in ap (λ x. x.job) (sym (ok_inj e))

  batch_results-jobs :
      (done : List (BatchJob × Done)) (rs : List BatchResult)
      → batch_results check strict_spec done ≡ ok rs
      → map (λ r. r.job) rs ≡ map (λ d. d.0) done
  unfolding batch_results
  batch_results-jobs [] rs h = ap (λ x. map (λ r. r.job) x) (sym (ok_inj h))
  batch_results-jobs ((j, d) ∷ done) rs h =
      let (r, a, h1) = >>=-eq-ok (batch_result check strict_spec j (raw_done d)) _ h in
      let (rest, b, h2) = >>=-eq-ok (batch_results check strict_spec done) _ h1 in
      ap (λ x. map (λ y. y.job) x) (sym (ok_inj h2))
      ∙ rw (batch_result-job strict_spec j (raw_done d) r a, batch_results-jobs done rest b) refl

  summary_of-IsCounted :
      (n_workers : ℕ) (done : List (BatchJob × Done)) (rs : List BatchResult)
      → map (λ r. r.job) rs ≡ map (λ d. d.0) done
      → IsCounted done (summary_of n_workers rs)
  summary_of-IsCounted n_workers done rs h =
      let le = passed_count_le rs in
      let all_passed = all_passed_iff rs in
      let is_zero = eqb_iff (length rs - passed_count rs) 0 in
      record {
        jobs = h;
        total = sym (length-map (λ r. r.job) rs) ∙ ap length h ∙ length-map (λ d. d.0) done;
        counts = omega (arith, le);
        verdict = (
          λ e. all_passed.0 (omega (arith, is_zero.0 e, le)),
          λ a. is_zero.1 (omega (arith, all_passed.1 a)),
        );
      }

  -- A batch that returns has one result for each job, in the order in which they were done; those
  -- that passed and those that failed make up the total, which is the number of the jobs; and it is
  -- reported as fine exactly when every result is a success.
  pub run_batch-IsCounted :
      (workers : Option ℕ) (cpus : ℕ) (done : List (BatchJob × Done)) (b : Batch)
      → run_batch check strict_spec workers cpus done ≡ ok b
      → IsCounted done b
  unfolding run_batch
  run_batch-IsCounted workers cpus [] b h =
      subst (IsCounted []) (ok_inj h)
        (record { jobs = refl; total = refl; counts = refl; verdict = (λ e. tt, λ a. refl) })
  run_batch-IsCounted workers cpus (d ∷ done) b h =
      let (rs, r, e) = >>=-eq-ok (batch_results check strict_spec (d ∷ done)) _ h in
      subst (IsCounted (d ∷ done)) (ok_inj e) (
        summary_of-IsCounted (worker_count workers cpus (length (d ∷ done))) (d ∷ done) rs
          (batch_results-jobs (d ∷ done) rs r))
