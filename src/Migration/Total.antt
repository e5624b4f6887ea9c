-- ===== src/Migration/Total.antt =====
-- Which artifacts migrate without an exception.
use tracecore.Prelude.{
  ◌≡◌, refl, sym, ◌∙◌, subst, String, true, false, ◌||◌, some, [], ◌∷◌, ◌==◌, All, ◌⊎◌, inl, inr,
  Bool-cases,
}
use tracecore.Prelude.Dict.{Dict, put}
use tracecore.Prelude.Text.{◌<>◌}
use tracecore.Value.{Value, null, bool, int, str, list, dict, get_or_null, is_null, truthy, or_else}
use tracecore.Failures.{in_taxonomy, classify_failure, validate_failure_type}
use tracecore.Failures.Taxonomy.{classify_failure-in_taxonomy}
use tracecore.Exc.{Returns, >>=-Returns, ok}
use tracecore.Migration.{
  Progress, settle, add_defaults, top_level_defaults, failure_of, of_success, of_failure,
  with_outcome, with_trace, stable_payload, inject_artifact_hash, with_hash, prepared,
  migrate_run_artifact,
}
use tracecore.Migration.Stages.{get_or_null-set_value}
use tracecore.Migration.Sound.{IsTrace, with_trace-IsTrace}
use tracecore.Migration.Stable.{stable_payload-Returns}

-- A failure type that is empty or one of the taxonomy, and a termination reason that is a text or
-- empty.
abbrev pub IsTyped : Value → Type 0
IsTyped (str t) = (t ≡ "") ⊎ (in_taxonomy t ≡ true)
IsTyped v = truthy v ≡ false

abbrev pub IsReason : Value → Type 0
IsReason (str t) = Unit
IsReason v = truthy v ≡ false

pub record IsMigratable (payload : Dict Value) : Type 0 where
  pub failure_type : IsTyped (get_or_null "failure_type" payload)
  pub termination_reason : IsReason (get_or_null "termination_reason" payload)

classified :
    (reason : String) → Returns (validate_failure_type false (some (classify_failure reason)))
unfolding validate_failure_type
classified reason = (some (classify_failure reason), rw (classify_failure-in_taxonomy reason) refl)

-- The reason that is taken is a text.
reason_text :
    (reason : Value)
    → IsReason reason
    → (t : String) × (or_else reason (str "logic_failure") ≡ str t)
reason_text (str t) r = elim (Bool-cases (truthy (str t))) [
  | inl h ↦ (t, rw h refl)
  | inr h ↦ ("logic_failure", rw h refl)
]
reason_text null r = ("logic_failure", rw r refl)
reason_text (bool b) r = ("logic_failure", rw r refl)
reason_text (int n) r = ("logic_failure", rw r refl)
reason_text (list vs) r = ("logic_failure", rw r refl)
reason_text (dict f) r = ("logic_failure", rw r refl)

falsy-Returns :
    (failure_type : Value) (t : String)
    → truthy failure_type ≡ false
    → Returns (failure_of failure_type (str t))
falsy-Returns failure_type t h = let (o, e) = classified t in (o, rw h e)

typed-Returns :
    (failure_type : Value) (t : String)
    → IsTyped failure_type
    → Returns (failure_of failure_type (str t))
unfolding validate_failure_type truthy
typed-Returns (str u) t (inl e) = falsy-Returns (str u) t (rw e refl)
typed-Returns (str u) t (inr e) = elim (Bool-cases (truthy (str u))) [
  | inl h ↦ (some u, rw (h, e) refl)
  | inr h ↦ falsy-Returns (str u) t h
]
typed-Returns null t i = falsy-Returns null t i
typed-Returns (bool b) t i = falsy-Returns (bool b) t i
typed-Returns (int n) t i = falsy-Returns (int n) t i
typed-Returns (list vs) t i = falsy-Returns (list vs) t i
typed-Returns (dict f) t i = falsy-Returns (dict f) t i

failure_of-Returns :
    (failure_type reason : Value)
    → IsTyped failure_type
    → IsReason reason
    → Returns (failure_of failure_type (or_else reason (str "logic_failure")))
failure_of-Returns failure_type reason i r =
    let (t, e) = reason_text reason r in rw e (typed-Returns failure_type t i)

with_outcome-Returns : (p : Progress) → IsMigratable (p.0) → Returns (with_outcome p)
with_outcome-Returns p m = elim (Bool-cases (truthy (get_or_null "success" (p.0)))) [
  | inl s ↦ (of_success p, rw s refl)
  | inr s ↦
      let reason = or_else (get_or_null "termination_reason" (p.0)) (str "logic_failure") in
      let p1 = settle "termination_reason" reason p in
      let same = get_or_null-set_value _ "termination_reason" "failure_type" reason p refl in
      let typed = subst IsTyped (sym same) m.failure_type in
      let (o, e) =
        failure_of-Returns (get_or_null "failure_type" (p1.0))
          (get_or_null "termination_reason" (p.0)) typed m.termination_reason in
      let made : Returns (of_failure p) =
        >>=-Returns (failure_of (get_or_null "failure_type" (p1.0)) reason) _ o e (_, refl) in
      (made.0, rw s (made.1))
]

-- The keys on which nothing is written before the outcome.
add_defaults-get :
    (j : String) (defaults : Dict Value) (p : Progress)
    → All (λ e. ((e.0) == j) ≡ false) defaults
    → get_or_null j ((add_defaults defaults p).0) ≡ get_or_null j (p.0)
unfolding add_defaults
add_defaults-get j [] p h = refl
add_defaults-get j ((k, v) ∷ defaults) p h =
    add_defaults-get j defaults _ (h.1) ∙ get_or_null-set_value _ k j v p (h.0)

abbrev IsUntouched : String → Type 0
IsUntouched j =
    (("success" == j) ≡ false)
    × (("evidence_links" == j) ≡ false)
    × (("budgets" == j) ≡ false)
    × (("agent_ref" == j) ≡ false)
    × (("runtime_identity" == j) ≡ false)
    × (("spec_version" == j) ≡ false)
    × All (λ e. ((e.0) == j) ≡ false) top_level_defaults

prepared-get :
    (harness_version j : String) (d : Dict Value)
    → IsUntouched j
    → get_or_null j ((prepared harness_version d).0) ≡ get_or_null j d
unfolding prepared
prepared-get harness_version j d h =
    let (s, e, b, a, r, v, t) = h in
    get_or_null-set_value _ "success" j _ _ s
    ∙ get_or_null-set_value _ "evidence_links" j _ _ e
    ∙ get_or_null-set_value _ "budgets" j _ _ b
    ∙ get_or_null-set_value _ "agent_ref" j _ _ a
    ∙ get_or_null-set_value _ "runtime_identity" j _ _ r
    ∙ get_or_null-set_value _ "spec_version" j _ _ v
    ∙ add_defaults-get j top_level_defaults (d, false) t

module _ (harness_version : String) (digest : Dict Value → String) where
  with_hash-Returns :
      (p : Progress) → IsTrace (get_or_null "action_trace" (p.0)) → Returns (with_hash digest p)
  with_hash-Returns p t = elim (Bool-cases (is_null (get_or_null "artifact_hash" (p.0)) || p.1)) [
    | inl c ↦
        let (d, e) = stable_payload-Returns (p.0) t in
        let (q, r) =
          >>=-Returns (stable_payload (p.0))
            (λ stable. ok (put "artifact_hash" (str ("sha256:" <> digest stable)) (p.0))) d e
            (_, refl) in
        let (o, w) =
          >>=-Returns (inject_artifact_hash digest (p.0)) (λ x. ok (x, true)) q r (_, refl) in
        (o, rw c w)
    | inr c ↦ (p, rw c refl)
  ]

  -- An artifact whose failure type is empty or one of the taxonomy, and whose termination reason is a
  -- text or empty, migrates without an exception, whatever else it holds.
  pub migrate_run_artifact-Returns :
      (payload : Dict Value)
      → IsMigratable payload
      → (q : Progress) × (migrate_run_artifact harness_version digest payload ≡ ok q)
  unfolding migrate_run_artifact
  migrate_run_artifact-Returns payload m =
      let p = prepared harness_version payload in
      let typed : IsUntouched "failure_type" = (
        refl,
        refl,
        refl,
        refl,
        refl,
        refl,
        (refl, (refl, (refl, (refl, (refl, (refl, (refl, tt))))))),
      ) in
      let reasoned : IsUntouched "termination_reason" = (
        refl,
        refl,
        refl,
        refl,
        refl,
        refl,
        (refl, (refl, (refl, (refl, (refl, (refl, (refl, tt))))))),
      ) in
      let ready : IsMigratable (p.0) = record {
        failure_type =
            subst IsTyped (sym (prepared-get harness_version "failure_type" payload typed))
              m.failure_type;
        termination_reason =
            subst IsReason
              (sym (prepared-get harness_version "termination_reason" payload reasoned))
              m.termination_reason;
      } in
      let (q, e) = with_outcome-Returns p ready in
      >>=-Returns (with_outcome p) _ q e (with_hash-Returns (with_trace q) (with_trace-IsTrace q))
