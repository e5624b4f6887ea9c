-- ===== src/Replay/Compare/Steps.antt =====
-- When the loop over two traces finds no error.
use tracecore.Prelude.{ℕ, suc, ◌≡◌, refl, sym, Bool, true, false, List, [], ◌∷◌, ◌++◌, inl, inr}
use tracecore.Prelude.Dict.{Dict, contains}
use tracecore.Value.{get_or, Value, null, obj, list, nil}
use tracecore.Exc.{Result, ok, raised, ◌>>=◌, Result-cases, ok_inj, ok-ne-raised}
use tracecore.Replay.Audit.{
  Divergence, action_differs, result_differs, audit_differs, audit_missing, unless, audit_allowed,
}
use tracecore.Replay.Compare.{
  Sides, same_at, compare_step, audits, then_audits, step_errors, compare_steps,
}

-- Nothing of two lists.
pub append-empty : {A : Type 0} (xs ys : List A) → xs ++ ys ≡ [] → (xs ≡ []) × (ys ≡ [])
append-empty [] ys h = (refl, h)
append-empty (x ∷ xs) ys h = cc

pub unless-empty : (b : Bool) (d : Divergence) → unless b d ≡ [] → b ≡ true
unless-empty true d h = refl
unless-empty false d h = cc

-- The two entries say the same, and their audits are allowed.
pub record IsSameStep (s : Sides) (n : ℕ) (a b : Dict Value) : Type 0 where
  pub audit_first : contains "io_audit" a ≡ true
  pub audit_second : contains "io_audit" b ≡ true
  pub action : same_at "action" (obj []) a b ≡ true
  pub result : same_at "result" null a b ≡ true
  pub audit : same_at "io_audit" (list nil) a b ≡ true
  pub first_allowed :
      audit_allowed (get_or "io_audit" (list nil) a) s.first_sandbox s.first n ≡ ok []
  pub second_allowed :
      audit_allowed (get_or "io_audit" (list nil) b) s.second_sandbox s.second n ≡ ok []

abbrev pub AreSameSteps : Sides → ℕ → List (Dict Value) → List (Dict Value) → Type 0
AreSameSteps s n (a ∷ as') (b ∷ bs) = IsSameStep s n a b × AreSameSteps s (suc n) as' bs
AreSameSteps s n _ _ = Unit

audits-empty :
    (r q : Result (List Divergence))
    → (do es ← r; fs ← q; ok (es ++ fs)) ≡ ok []
    → (r ≡ ok []) × (q ≡ ok [])
audits-empty (ok es) (ok fs) h =
    let (e, f) = append-empty es fs (ok_inj h) in (rw e refl, rw f refl)
audits-empty (ok es) (raised x) h = absurd (ok-ne-raised (sym h))
audits-empty (raised x) q h = absurd (ok-ne-raised (sym h))

then_audits-empty :
    (s : Sides) (n : ℕ) (a b : Dict Value) (errors : List Divergence)
    → then_audits s n a b errors ≡ ok []
    → (errors ≡ []) × (audits s n a b ≡ ok [])
then_audits-empty s n a b [] h = (refl, h)
then_audits-empty s n a b (e ∷ es) h = cc

step_sound :
    (s : Sides) (n : ℕ) (a b : Dict Value) (errors : List Divergence)
    → then_audits s n a b (errors ++ step_errors s n a b) ≡ ok []
    → (errors ≡ []) × IsSameStep s n a b
unfolding compare_step
step_sound s n a b errors h =
    let (none_yet, allowed) = then_audits-empty s n a b (errors ++ step_errors s n a b) h in
    let (start, e) = append-empty errors (step_errors s n a b) none_yet in
    let has_a = unless-empty (contains "io_audit" a) (audit_missing s.first n) in
    let has_b = unless-empty (contains "io_audit" b) (audit_missing s.second n) in
    let action = unless-empty (same_at "action" (obj []) a b) (action_differs n) in
    let result = unless-empty (same_at "result" null a b) (result_differs n) in
    let audit = unless-empty (same_at "io_audit" (list nil) a b) (audit_differs n) in
    let (present, compared) =
      append-empty
        (unless (contains "io_audit" a) (audit_missing s.first n)
          ++ unless (contains "io_audit" b) (audit_missing s.second n))
        (compare_step a b n) e in
    let (h1, h2) =
      append-empty (unless (contains "io_audit" a) (audit_missing s.first n))
        (unless (contains "io_audit" b) (audit_missing s.second n)) present in
    let (acted, h5) =
      append-empty
        (unless (same_at "action" (obj []) a b) (action_differs n)
          ++ unless (same_at "result" null a b) (result_differs n))
        (unless (same_at "io_audit" (list nil) a b) (audit_differs n)) compared in
    let (h3, h4) =
      append-empty (unless (same_at "action" (obj []) a b) (action_differs n))
        (unless (same_at "result" null a b) (result_differs n)) acted in
    let (first, second) =
      audits-empty (audit_allowed (get_or "io_audit" (list nil) a) s.first_sandbox s.first n)
        (audit_allowed (get_or "io_audit" (list nil) b) s.second_sandbox s.second n) allowed in
    (
      start,
      record {
        audit_first = has_a h1;
        audit_second = has_b h2;
        action = action h3;
        result = result h4;
        audit = audit h5;
        first_allowed = first;
        second_allowed = second;
      },
    )

step_complete :
    (s : Sides) (n : ℕ) (a b : Dict Value)
    → IsSameStep s n a b
    → then_audits s n a b (step_errors s n a b) ≡ ok []
unfolding compare_step
step_complete s n a b h =
    rw (h.audit_first, h.audit_second, h.action, h.result, h.audit)
      (rw (h.first_allowed, h.second_allowed) refl)

-- The loop ends with no error exactly when there was none before, and the steps are the same.
pub steps_sound :
    (s : Sides) (n : ℕ) (errors : List Divergence) (as' bs : List (Dict Value))
    → compare_steps s n errors as' bs ≡ ok []
    → (errors ≡ []) × AreSameSteps s n as' bs
unfolding compare_steps
steps_sound s n errors [] bs h = (ok_inj h, tt)
steps_sound s n errors (a ∷ as') [] h = (ok_inj h, tt)
steps_sound s n errors (a ∷ as') (b ∷ bs) h =
    elim (Result-cases (then_audits s n a b (errors ++ step_errors s n a b))) [
      | inr (x, e) ↦ absurd (ok-ne-raised (sym (rw e at h)))
      | inl (es, e) ↦
          let (empty_after, rest) = steps_sound s (suc n) es as' bs (rw e at h) in
          let (start, same) = step_sound s n a b errors (rw empty_after at e) in
          (start, (same, rest))
    ]

pub steps_complete :
    (s : Sides) (n : ℕ) (as' bs : List (Dict Value))
    → AreSameSteps s n as' bs
    → compare_steps s n [] as' bs ≡ ok []
unfolding compare_steps
steps_complete s n [] bs h = refl
steps_complete s n (a ∷ as') [] h = refl
steps_complete s n (a ∷ as') (b ∷ bs) h =
    rw (step_complete s n a b h.0) (steps_complete s (suc n) as' bs h.1)
