-- ===== src/Spec/Compliance.antt =====
-- What the report of an artifact means.
use tracecore.Prelude.{
  ◌↔◌, ◌≡◌, refl, ap, String, true, false, not, ◌&&◌, Option, some, List, [], ◌==◌, any, Bool-cases,
  inl, inr, arith,
}
use tracecore.Prelude.Dict.{Dict}
use tracecore.Prelude.Text.{starts_with}
use tracecore.Value.{Value, null, bool, int, str, list, dict, truthy, get_or_null, as_list, to_text}
use tracecore.Value.Equality.{value_eq}
use tracecore.Exc.{ok, ok_inj, >>=-eq-ok}
use tracecore.Spec.{
  required_spec_fields, canonical_failure_types, schema_errors, missing, version_errors,
  hash_errors, failure_errors, all_errors, check_spec_compliance,
}
use tracecore.Spec.Parts.{
  HasAll, HasIdentity, HasHash, IsCanonical, AreEntries, error_if_iff, missing_iff,
  report_missing_iff, schema_errors_iff, identity_errors_iff, list_errors_iff, canonical_iff,
  ok-error_if_iff, appended_iff, unless_iff,
}

pub record IsCompliant (text_of : Value → String) (schema : Option (List String)) (d : Dict Value)
    : Type 0 where
  pub schema_valid : schema ≡ some []
  pub fields : HasAll required_spec_fields d
  pub version :
      truthy (get_or_null "spec_version" d) ≡ true
      → starts_with (to_text text_of (get_or_null "spec_version" d)) "tracecore-spec-v" ≡ true
  pub identity : HasIdentity (get_or_null "runtime_identity" d)
  pub hash : HasHash text_of (get_or_null "artifact_hash" d)
  pub task : value_eq (get_or_null "task_hash" d) (str "") ≡ false
  pub failure : IsCanonical (get_or_null "failure_type" d)
  pub trace : AreEntries (as_list (get_or_null "action_trace" d))

module _ (text_of repr : Value → String) where
  failure_errors_iff : (v : Value) → (failure_errors text_of repr v ≡ ok []) ↔ IsCanonical v
  failure_errors_iff null = (λ h. tt, λ h. refl)
  failure_errors_iff (str t) =
      let e = ok-error_if_iff (not (any (λ f. t == f) canonical_failure_types)) _ in
      let c = canonical_iff t in (λ h. c.0 (e.0 h), λ h. e.1 (c.1 h))
  failure_errors_iff (list vs) = (λ h. cc, λ h. absurd h)
  failure_errors_iff (dict f) = (λ h. cc, λ h. absurd h)
  failure_errors_iff (bool b) = (λ h. cc, λ h. absurd h)
  failure_errors_iff (int n) = (λ h. cc, λ h. absurd h)

  hash_errors_iff : (v : Value) → (hash_errors text_of repr v ≡ []) ↔ HasHash text_of v
  hash_errors_iff null = (λ h. tt, λ h. refl)
  hash_errors_iff (str t) = unless_iff (starts_with t "sha256:") _
  hash_errors_iff (list vs) = unless_iff (starts_with (text_of (list vs)) "sha256:") _
  hash_errors_iff (dict f) = unless_iff (starts_with (text_of (dict f)) "sha256:") _
  hash_errors_iff (bool b) = unless_iff (starts_with (text_of (bool b)) "sha256:") _
  hash_errors_iff (int n) = unless_iff (starts_with (text_of (int n)) "sha256:") _

  version_errors_iff :
      (v : Value)
      → (version_errors text_of repr v ≡ [])
        ↔ (truthy v ≡ true → starts_with (to_text text_of v) "tracecore-spec-v" ≡ true)
  version_errors_iff v =
      let e =
        error_if_iff (truthy v && not (starts_with (to_text text_of v) "tracecore-spec-v")) _ in
      (
        λ h t. ground (arith, e.0 h),
        λ h.
            e.1
              (elim (Bool-cases (truthy v)) [ inl t ↦ ground (arith, h t) | inr t ↦ ground arith ]),
      )

  report-IsCompliant :
      (path : String) (schema : Option (List String)) (d : Dict Value) (failure : List String)
      → failure_errors text_of repr (get_or_null "failure_type" d) ≡ ok failure
      → all_errors text_of repr path schema d failure ≡ []
      → IsCompliant text_of schema d
  unfolding all_errors
  report-IsCompliant path schema d failure f h =
      let (reported, version, identity, hash, task, none_left, trace) =
        (appended_iff _ _ _ _ _ failure _).0 h in
      let m =
        (report_missing_iff (schema_errors path schema) (missing required_spec_fields d)).0
          reported in
      record {
        schema_valid = (schema_errors_iff path schema).0 (m.0);
        fields = (missing_iff required_spec_fields d).0 (m.1);
        version = (version_errors_iff (get_or_null "spec_version" d)).0 version;
        identity = (identity_errors_iff (get_or_null "runtime_identity" d)).0 identity;
        hash = (hash_errors_iff (get_or_null "artifact_hash" d)).0 hash;
        task = (error_if_iff (value_eq (get_or_null "task_hash" d) (str "")) _).0 task;
        failure = (failure_errors_iff (get_or_null "failure_type" d)).0 (rw none_left at f);
        trace = (list_errors_iff (as_list (get_or_null "action_trace" d))).0 trace;
      }

  all_errors-nil :
      (path : String) (schema : Option (List String)) (d : Dict Value)
      → IsCompliant text_of schema d
      → all_errors text_of repr path schema d [] ≡ []
  unfolding all_errors
  all_errors-nil path schema d c = (appended_iff _ _ _ _ _ [] _).1 (
    (report_missing_iff (schema_errors path schema) (missing required_spec_fields d)).1 (
      (schema_errors_iff path schema).1 c.schema_valid,
      (missing_iff required_spec_fields d).1 c.fields,
    ),
    (version_errors_iff (get_or_null "spec_version" d)).1 c.version,
    (identity_errors_iff (get_or_null "runtime_identity" d)).1 c.identity,
    (hash_errors_iff (get_or_null "artifact_hash" d)).1 c.hash,
    (error_if_iff (value_eq (get_or_null "task_hash" d) (str "")) _).1 c.task,
    refl,
    (list_errors_iff (as_list (get_or_null "action_trace" d))).1 c.trace,
  )

  -- `check_spec_compliance` reports that an artifact is fine, with no errors, exactly when: the schema
  -- was found and its validator has nothing to say; every required field is there; a spec version
  -- that is not empty, and an artifact hash that is there, begin as they must; a runtime identity that
  -- is there has a name and a version; the task hash is not the empty text; a failure type that is
  -- there is one of the taxonomy; and each entry of a trace that is a list is a dict with every field.
  pub check_spec_compliance_iff :
      (path : String) (schema : Option (List String)) (d : Dict Value)
      → (check_spec_compliance text_of repr path schema d ≡ ok (true, []))
        ↔ IsCompliant text_of schema d
  unfolding check_spec_compliance
  check_spec_compliance_iff path schema d = (
    λ h.
        let (failure, f, r) =
          >>=-eq-ok (failure_errors text_of repr (get_or_null "failure_type" d)) _ h in
        let e : all_errors text_of repr path schema d failure ≡ [] = ap (λ p. p.1) (ok_inj r) in
        report-IsCompliant path schema d failure f e,
    λ c.
        rw
          (
            (failure_errors_iff (get_or_null "failure_type" d)).1 c.failure,
            all_errors-nil path schema d c,
          )
          refl,
  )
