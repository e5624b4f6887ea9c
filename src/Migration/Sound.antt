-- ===== src/Migration/Sound.antt =====
-- What holds of an artifact that was migrated.
use tracecore.Prelude.{
  ◌≡◌, refl, sym, ◌∙◌, ap, subst, String, true, false, not, ◌||◌, ◌==◌, All, ◌⊎◌, inl, inr,
  Bool-cases, arith,
}
use tracecore.Prelude.Dict.{Dict}
use tracecore.Prelude.Text.{◌<>◌}
use tracecore.Value.{
  Value, null, bool, int, str, list, dict, Items, to_list, get_or_null, is_null, truthy,
}
use tracecore.Value.Equality.{value_eq}
use tracecore.Failures.{in_taxonomy, of_type}
use tracecore.Spec.Parts.{IsEntry}
use tracecore.Exc.{ok, ok_inj, >>=-eq-ok}
use tracecore.Migration.{
  Progress, spec_version, trace_of, trace_from, action_trace, of_success, of_failure, failure_of,
  with_outcome, with_trace, stable_payload, rehash, with_hash, prepared, migrate_run_artifact,
}
use tracecore.Migration.Stages.{
  get_or_null-put, get_or_null-set_value, get_or_null-set_value_self, settle-str, set_value-null,
  failure_of-IsFailureType,
}
use tracecore.Migration.Entries.{trace_from-IsEntry, eq_items-IsEntry}

abbrev pub IsTrace : Value → Type 0
IsTrace v = (vs : Items) × (v ≡ list vs) × All IsEntry (to_list vs)

-- The outcome by the taxonomy.
abbrev pub IsSettled : Dict Value → Type 0
IsSettled d =
    (truthy (get_or_null "success" d) ≡ true) × (get_or_null "failure_type" d ≡ null)
    ⊎ (truthy (get_or_null "success" d) ≡ false)
      × ((t : String) × (get_or_null "failure_type" d ≡ str t) × (in_taxonomy t ≡ true))

pub record IsMigrated (d : Dict Value) : Type 0 where
  pub version : get_or_null "spec_version" d ≡ str spec_version
  pub outcome : IsSettled d
  pub trace : IsTrace (get_or_null "action_trace" d)
  pub hash : is_null (get_or_null "artifact_hash" d) ≡ false

-- The keys on which the outcome is not written.
abbrev IsApart : String → Type 0
IsApart j =
    (("failure_type" == j) ≡ false)
    × (("termination_reason" == j) ≡ false)
    × (("failure_reason" == j) ≡ false)

of_success-get :
    (j : String) (p : Progress) → IsApart j → get_or_null j ((of_success p).0) ≡ get_or_null j (p.0)
of_success-get j p h =
    get_or_null-set_value _ "failure_reason" j null _ (h.2)
    ∙ get_or_null-set_value _ "termination_reason" j (str "success") _ (h.1)
    ∙ get_or_null-set_value _ "failure_type" j null p (h.0)

of_success-failure_type : (p : Progress) → get_or_null "failure_type" ((of_success p).0) ≡ null
of_success-failure_type p =
    get_or_null-set_value _ "failure_reason" "failure_type" null _ refl
    ∙ get_or_null-set_value _ "termination_reason" "failure_type" (str "success") _ refl
    ∙ set_value-null "failure_type" p

pub of_failure-get :
    (j : String) (p q : Progress)
    → IsApart j
    → of_failure p ≡ ok q
    → get_or_null j (q.0) ≡ get_or_null j (p.0)
of_failure-get j p q h e =
    let (failure, f, r) = >>=-eq-ok (failure_of _ _) _ e in
    ap (λ w. get_or_null j (w.0)) (sym (ok_inj r))
    ∙ get_or_null-set_value _ "failure_reason" j _ _ (h.2)
    ∙ get_or_null-set_value _ "failure_type" j (of_type failure) _ (h.0)
    ∙ get_or_null-set_value _ "termination_reason" j _ p (h.1)

of_failure-failure_type :
    (p q : Progress)
    → of_failure p ≡ ok q
    → (t : String) × (get_or_null "failure_type" (q.0) ≡ str t) × (in_taxonomy t ≡ true)
of_failure-failure_type p q e =
    let (failure, f, r) = >>=-eq-ok (failure_of _ _) _ e in
    let (t, o, i) = failure_of-IsFailureType _ _ failure f in
    (
      t,
      ap (λ w. get_or_null "failure_type" (w.0)) (sym (ok_inj r))
          ∙ get_or_null-set_value _ "failure_reason" "failure_type" _ _ refl
          ∙ rw o (settle-str "failure_type" t _),
      i,
    )

pub with_outcome-get :
    (j : String) (p q : Progress)
    → IsApart j
    → with_outcome p ≡ ok q
    → get_or_null j (q.0) ≡ get_or_null j (p.0)
with_outcome-get j p q h e = elim (Bool-cases (truthy (get_or_null "success" (p.0)))) [
  | inl s ↦ ap (λ w. get_or_null j (w.0)) (sym (ok_inj (rw s at e))) ∙ of_success-get j p h
  | inr s ↦ of_failure-get j p q h (rw s at e)
]

with_outcome-IsSettled : (p q : Progress) → with_outcome p ≡ ok q → IsSettled (q.0)
with_outcome-IsSettled p q e =
    let same = with_outcome-get "success" p q (refl, refl, refl) e in
    elim (Bool-cases (truthy (get_or_null "success" (p.0)))) [
      | inl s ↦ inl (
        ap truthy same ∙ s,
        ap (λ w. get_or_null "failure_type" (w.0)) (sym (ok_inj (rw s at e)))
            ∙ of_success-failure_type p,
      )
      | inr s ↦ inr (ap truthy same ∙ s, of_failure-failure_type p q (rw s at e))
    ]

trace_of-IsTrace : (started_at old : Value) → IsTrace (trace_of started_at old)
unfolding to_list
trace_of-IsTrace s (list vs) = (trace_from s 1 vs, refl, trace_from-IsEntry s 1 vs)
trace_of-IsTrace s null = (_, refl, tt)
trace_of-IsTrace s (bool b) = (_, refl, tt)
trace_of-IsTrace s (int n) = (_, refl, tt)
trace_of-IsTrace s (str t) = (_, refl, tt)
trace_of-IsTrace s (dict f) = (_, refl, tt)

left-IsTrace :
    (started_at old : Value) → value_eq old (trace_of started_at old) ≡ true → IsTrace old
unfolding value_eq
left-IsTrace s (list vs) h = (vs, refl, eq_items-IsEntry s 1 vs h)
left-IsTrace s null h = cc
left-IsTrace s (bool b) h = cc
left-IsTrace s (int n) h = cc
left-IsTrace s (str t) h = cc
left-IsTrace s (dict f) h = cc

pub with_trace-IsTrace : (p : Progress) → IsTrace (get_or_null "action_trace" ((with_trace p).0))
with_trace-IsTrace p =
    let old = get_or_null "action_trace" (p.0) in
    let started = get_or_null "started_at" (p.0) in
    let self =
      get_or_null-set_value_self (not (value_eq old (trace_of started old))) "action_trace"
        (action_trace (p.0)) p in
    elim (Bool-cases (value_eq old (trace_of started old))) [
      | inl e ↦ subst IsTrace (sym (self ∙ rw e refl)) (left-IsTrace started old e)
      | inr e ↦ subst IsTrace (sym (self ∙ rw e refl)) (trace_of-IsTrace started old)
    ]

module _ (digest : Dict Value → String) where
  rehash-get :
      (j : String) (p q : Progress)
      → ("artifact_hash" == j) ≡ false
      → rehash digest p ≡ ok q
      → get_or_null j (q.0) ≡ get_or_null j (p.0)
  rehash-get j p q h e =
      let (d, i, r) = >>=-eq-ok _ _ e in
      let (stable, t, w) = >>=-eq-ok (stable_payload (p.0)) _ i in
      ap (λ x. get_or_null j (x.0)) (sym (ok_inj r))
      ∙ ap (get_or_null j) (sym (ok_inj w))
      ∙ rw (get_or_null-put "artifact_hash" j (str ("sha256:" <> digest stable)) (p.0), h) refl

  rehash-hash :
      (p q : Progress)
      → rehash digest p ≡ ok q
      → is_null (get_or_null "artifact_hash" (q.0)) ≡ false
  rehash-hash p q e =
      let (d, i, r) = >>=-eq-ok _ _ e in
      let (stable, t, w) = >>=-eq-ok (stable_payload (p.0)) _ i in
      ap (λ x. is_null (get_or_null "artifact_hash" (x.0))) (sym (ok_inj r))
      ∙ ap (λ x. is_null (get_or_null "artifact_hash" x)) (sym (ok_inj w))
      ∙ ap is_null
          (get_or_null-put "artifact_hash" "artifact_hash" (str ("sha256:" <> digest stable)) (p.0))

  with_hash-get :
      (j : String) (p q : Progress)
      → ("artifact_hash" == j) ≡ false
      → with_hash digest p ≡ ok q
      → get_or_null j (q.0) ≡ get_or_null j (p.0)
  with_hash-get j p q h e = elim (Bool-cases (is_null (get_or_null "artifact_hash" (p.0)) || p.1)) [
    | inl c ↦ rehash-get j p q h (rw c at e)
    | inr c ↦ ap (λ x. get_or_null j (x.0)) (sym (ok_inj (rw c at e)))
  ]

  with_hash-hash :
      (p q : Progress)
      → with_hash digest p ≡ ok q
      → is_null (get_or_null "artifact_hash" (q.0)) ≡ false
  with_hash-hash p q e = elim (Bool-cases (is_null (get_or_null "artifact_hash" (p.0)) || p.1)) [
    | inl c ↦ rehash-hash p q (rw c at e)
    | inr c ↦
        ap (λ x. is_null (get_or_null "artifact_hash" (x.0))) (sym (ok_inj (rw c at e)))
        ∙ ground arith
  ]

prepared-version :
    (harness_version : String) (d : Dict Value)
    → get_or_null "spec_version" ((prepared harness_version d).0) ≡ str spec_version
unfolding prepared
prepared-version harness_version d =
    get_or_null-set_value _ "success" "spec_version" _ _ refl
    ∙ get_or_null-set_value _ "evidence_links" "spec_version" _ _ refl
    ∙ get_or_null-set_value _ "budgets" "spec_version" _ _ refl
    ∙ get_or_null-set_value _ "agent_ref" "spec_version" _ _ refl
    ∙ get_or_null-set_value _ "runtime_identity" "spec_version" _ _ refl
    ∙ settle-str "spec_version" spec_version _

module _ (harness_version : String) (digest : Dict Value → String) where
  -- Whatever artifact is migrated without an exception: it has the current version and a hash; it is a
  -- success without a failure type, or a failure with a type of the taxonomy; and its trace is a list
  -- of dicts, each with all the fields that the specification asks for.
  pub migrate_run_artifact-IsMigrated :
      (payload : Dict Value) (q : Progress)
      → migrate_run_artifact harness_version digest payload ≡ ok q
      → IsMigrated (q.0)
  unfolding migrate_run_artifact
  migrate_run_artifact-IsMigrated payload q h =
      let (p, o, w) = >>=-eq-ok (with_outcome (prepared harness_version payload)) _ h in
      let kept : (j : String)
          → ("artifact_hash" == j) ≡ false
          → ("action_trace" == j) ≡ false
          → get_or_null j (q.0) ≡ get_or_null j (p.0) =
        λ j a b.
          with_hash-get digest j (with_trace p) q a w
          ∙ get_or_null-set_value _ "action_trace" j _ p b in
      record {
        version =
            kept "spec_version" refl refl
            ∙ with_outcome-get "spec_version" (prepared harness_version payload) p
                (refl, refl, refl) o
            ∙ prepared-version harness_version payload;
        outcome =
            rw (kept "success" refl refl, kept "failure_type" refl refl)
              (with_outcome-IsSettled (prepared harness_version payload) p o);
        trace =
            subst IsTrace (sym (with_hash-get digest "action_trace" (with_trace p) q refl w))
              (with_trace-IsTrace p);
        hash = with_hash-hash digest (with_trace p) q w;
      }
