-- ===== src/Batch/Strict.antt =====
-- What passes in a strict batch.
use tracecore.Prelude.{
  ◌≡◌, refl, sym, ◌∙◌, ap, subst, Bool, true, false, false≢true, Option, some, List, [], ◌∷◌,
  String, All, ℕ, is_empty, is_empty_iff,
}
use tracecore.Prelude.Dict.{Dict}
use tracecore.Value.{Value, truthy, get_or_null}
use tracecore.Exc.{Result, ok, ok_inj, >>=-eq-ok}
use tracecore.Spec.{all_errors, failure_errors, check_spec_compliance}
use tracecore.Spec.Compliance.{IsCompliant, check_spec_compliance_iff}
use tracecore.Batch.{
  BatchJob, BatchResult, Batch, Done, Raw, completed, broken, raw_done, strict_result, batch_result,
  batch_results, run_batch,
}

module _ (text_of repr : Value → String) (path : String)
    (schema : Dict Value → Option (List String)) where
  -- The check of the specification, with what the schema validator says of an artifact.
  abbrev pub spec_check : Dict Value → Result (Bool × List String)
  spec_check d = check_spec_compliance text_of repr path (schema d) d

  -- A result that passed holds the artifact of a successful run, which is compliant.
  abbrev pub IsPassed : BatchResult → Type 0
  IsPassed r =
      r.success ≡ true
      → (d : Dict Value) × (r.result ≡ some d)
        × (truthy (get_or_null "success" d) ≡ true)
        × IsCompliant text_of (schema d) d

  fine-IsCompliant :
      (d : Dict Value) (errors : List String)
      → spec_check d ≡ ok (true, errors)
      → IsCompliant text_of (schema d) d
  unfolding check_spec_compliance
  fine-IsCompliant d errors h =
      let (failure, f, e) =
        >>=-eq-ok (failure_errors text_of repr (get_or_null "failure_type" d)) _ h in
      let fine : is_empty (all_errors text_of repr path (schema d) d failure) ≡ true =
        ap (λ p. p.0) (ok_inj e) in
      let same : all_errors text_of repr path (schema d) d failure ≡ errors =
        ap (λ p. p.1) (ok_inj e) in
      let none_left = (is_empty_iff (all_errors text_of repr path (schema d) d failure)).0 fine in
      (check_spec_compliance_iff text_of repr path (schema d) d).0
        (h ∙ rw (sym same ∙ none_left) refl)

  strict_result-IsPassed :
      (j : BatchJob) (wall : ℕ) (d : Dict Value) (report : Bool × List String)
      → spec_check d ≡ ok report
      → IsPassed (strict_result spec_check j wall d report)
  strict_result-IsPassed j wall d (true, errors) h = λ s. (d, refl, s, fine-IsCompliant d errors h)
  strict_result-IsPassed j wall d (false, errors) h = λ s. absurd (false≢true s)

  batch_result-IsPassed :
      (j : BatchJob) (raw : Raw) (r : BatchResult)
      → batch_result spec_check true j raw ≡ ok r
      → IsPassed r
  batch_result-IsPassed j (broken wall e) r h =
      subst IsPassed (ok_inj h) (λ s. absurd (false≢true s))
  batch_result-IsPassed j (completed wall d) r h =
      let (report, c, e) = >>=-eq-ok (spec_check d) _ h in
      subst IsPassed (ok_inj e) (strict_result-IsPassed j wall d report c)

  batch_results-IsPassed :
      (done : List (BatchJob × Done)) (rs : List BatchResult)
      → batch_results spec_check true done ≡ ok rs
      → All IsPassed rs
  unfolding batch_results
  batch_results-IsPassed [] rs h = subst (All IsPassed) (ok_inj h) tt
  batch_results-IsPassed ((j, d) ∷ done) rs h =
      let (r, a, h1) = >>=-eq-ok (batch_result spec_check true j (raw_done d)) _ h in
      let (rest, b, h2) = >>=-eq-ok (batch_results spec_check true done) _ h1 in
      subst (All IsPassed) (ok_inj h2)
        (batch_result-IsPassed j (raw_done d) r a, batch_results-IsPassed done rest b)

  -- Every result that a strict batch counts as passed holds the artifact of a run that succeeded, and
  -- the artifact complies with the specification.
  pub run_batch-IsPassed :
      (workers : Option ℕ) (cpus : ℕ) (done : List (BatchJob × Done)) (b : Batch)
      → run_batch spec_check true workers cpus done ≡ ok b
      → All IsPassed b.results
  unfolding run_batch
  run_batch-IsPassed workers cpus [] b h = subst (λ x. All IsPassed x.results) (ok_inj h) tt
  run_batch-IsPassed workers cpus (d ∷ done) b h =
      let (rs, r, e) = >>=-eq-ok (batch_results spec_check true (d ∷ done)) _ h in
      subst (λ x. All IsPassed x.results) (ok_inj e) (batch_results-IsPassed (d ∷ done) rs r)
