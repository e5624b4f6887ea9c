-- ===== src/Failures/Taxonomy.antt =====
-- Failure types and the taxonomy.
use tracecore.Prelude.{
  String, ◌≡◌, ◌≢◌, refl, sym, ◌∙◌, false≢true, true, false, Option, none, some, arith, ◌==◌,
  eq_iff, inl, inr, Option-cases, Bool-cases,
}
use tracecore.Prelude.Dict.{Dict, get, put, get-put, get-put_self, all_values, get-all_values}
use tracecore.Value.{Value, str, null, truthy, get_or_null}
use tracecore.Exc.{Result, ok, raised, Result-cases, ok_inj, ok-ne-raised, >>=-eq-ok}
use tracecore.Failures.{
  in_taxonomy, classify_failure, termination_to_failure, validate_failure_type, checked_type,
  reason_of, resolve_type, ensure_failure_type,
}

all_in_taxonomy : all_values in_taxonomy termination_to_failure ≡ true
all_in_taxonomy = refl

-- Whatever the reason, known or not, its failure type is in the taxonomy.
pub classify_failure-in_taxonomy : (reason : String) → in_taxonomy (classify_failure reason) ≡ true
unfolding classify_failure
classify_failure-in_taxonomy reason = elim (Option-cases (get reason termination_to_failure)) [
  | inl e ↦ rw (e, classify_failure)
  | inr (t, e) ↦
      rw (e, classify_failure)
        (get-all_values in_taxonomy reason t termination_to_failure all_in_taxonomy e)
]

-- What a result that went through `ensure_failure_type` says of its failure type.
pub record IsClassified (payload result : Dict Value) : Type 0 where
  pub on_success :
      truthy (get_or_null "success" payload) ≡ true → get "failure_type" result ≡ some null
  pub on_failure :
      truthy (get_or_null "success" payload) ≡ false
      → (t : String) × (get "failure_type" result ≡ some (str t)) × (in_taxonomy t ≡ true)
  pub others : (k : String) → k ≢ "failure_type" → get k result ≡ get k payload

valid_type :
    (t : Option String) {o : Option String}
    → validate_failure_type false t ≡ ok o
    → (u : String) × (o ≡ some u) × (in_taxonomy u ≡ true)
unfolding validate_failure_type
valid_type none h = cc
valid_type (some t) {o} h = elim (Bool-cases (in_taxonomy t)) [
  | inl e ↦ (t, sym (ok_inj (rw e at h)), e)
  | inr e ↦ absurd (ok-ne-raised (sym (rw e at h)))
]

checked :
    (v : Value) {o : Option String}
    → checked_type v ≡ ok o
    → (u : String) × (o ≡ some u) × (in_taxonomy u ≡ true)
unfolding validate_failure_type
checked (str t) h = valid_type (some t) h
checked _ h = cc

resolved :
    (payload : Dict Value) {o : Option String}
    → resolve_type payload ≡ ok o
    → (u : String) × (o ≡ some u) × (in_taxonomy u ≡ true)
unfolding resolve_type
resolved payload h = elim (Bool-cases (truthy (get_or_null "failure_type" payload))) [
  | inl e ↦ checked (get_or_null "failure_type" payload) (rw e at h)
  | inr e ↦
      let reason = get_or_null "termination_reason" payload in
      let (t, _, v) = >>=-eq-ok (reason_of reason) _ (rw e at h) in
      valid_type (some (classify_failure t)) v
]

other_keys :
    (k : String) (v : Value) (payload : Dict Value)
    → k ≢ "failure_type"
    → get k (put "failure_type" v payload) ≡ get k payload
other_keys k v payload n =
    rw (get-put "failure_type" k v payload) (ground (arith, eq_iff "failure_type" k))

-- A result that is returned has no failure type if it succeeded, and one of the taxonomy if it
-- did not; nothing else of it changes.
pub ensure_failure_type-IsClassified :
    (payload result : Dict Value)
    → ensure_failure_type payload ≡ ok result
    → IsClassified payload result
ensure_failure_type-IsClassified payload result h =
    elim (Bool-cases (truthy (get_or_null "success" payload))) [
      | inl e ↦
          let q : put "failure_type" null payload ≡ result =
            ok_inj (unfold ensure_failure_type in rw e at h) in
          rw (← q) (record {
            on_success = λ _. get-put_self "failure_type" null payload;
            on_failure = λ f. absurd (false≢true (sym f ∙ e));
            others = λ k n. other_keys k null payload n;
          })
      | inr e ↦ elim (Result-cases (resolve_type payload)) [
        | inr (x, f) ↦
            let q : ◌≡◌ {A = Result (Dict Value)} (raised x) (ok result) =
              unfold ensure_failure_type in rw (e, f) at h in
            absurd (ok-ne-raised (sym q))
        | inl (o, f) ↦
            let (u, ou, member) = resolved payload f in
            let q : put "failure_type" (str u) payload ≡ result =
              ok_inj (unfold ensure_failure_type in rw (e, f, ou) at h) in
            rw (← q) (record {
              on_success = λ t. absurd (false≢true (sym e ∙ t));
              on_failure = λ _. (u, get-put_self "failure_type" (str u) payload, member);
              others = λ k n. other_keys k (str u) payload n;
            })
      ]
    ]

-- No type of the taxonomy is empty.
in_taxonomy-nonempty : (t : String) → in_taxonomy t ≡ true → (t == "") ≡ false
in_taxonomy-nonempty t h = elim (Bool-cases (t == "")) [
  | inr e ↦ e
  | inl e ↦ absurd (false≢true (rw ((eq_iff t "").0 e) at h))
]

pub ensure-on_success :
    (payload : Dict Value)
    → truthy (get_or_null "success" payload) ≡ true
    → ensure_failure_type payload ≡ ok (put "failure_type" null payload)
unfolding ensure_failure_type
ensure-on_success payload h = rw h refl

pub ensure-on_failure :
    (payload : Dict Value) (t : String)
    → truthy (get_or_null "success" payload) ≡ false
    → get_or_null "failure_type" payload ≡ str t
    → in_taxonomy t ≡ true
    → ensure_failure_type payload ≡ ok (put "failure_type" (str t) payload)
unfolding ensure_failure_type resolve_type validate_failure_type truthy
ensure-on_failure payload t h k m = rw (h, k, in_taxonomy-nonempty t m, m) refl
