-- ===== src/Bundle/Rows.antt =====
-- Which tool calls of a bundle are found fine.
use tracecore.Prelude.{
  ℕ, ◌+◌, String, ◌≡◌, refl, sym, ◌↔◌, false, ◌==◌, eq_iff, Option, none, some, List, [], ◌∷◌,
  map-nil_iff, All, inl, inr, Bool-cases, false≢true, ◌∙◌,
}
use tracecore.Prelude.Text.{strip}
use tracecore.Value.{
  Value, Items, Fields, null, bool, int, str, list, dict, to_list, to_dict, get_or_null,
}
use tracecore.Exc.{Result, ok, ok_inj, ok-ne-raised, >>=-eq-ok, found-append_iff}
use tracecore.Env.Network.{NetworkGuard}
use tracecore.Replay.Audit.{check_entries}
use tracecore.Replay.Audit.Allowed.{IsAllowed, check_entries_iff}
use tracecore.Files.{Library}
use tracecore.Bundle.Verify.{Fault, refused, audit_faults, call_faults, calls_faults}

found : {x : Fault} {xs : List Fault} → ◌≡◌ {A = Result (List Fault)} (ok (x ∷ xs)) (ok []) → ⊥
found h = cc

-- A row of the tool calls with an audit that keeps to the roots and to the guard.
pub record IsAudited (roots : Items) (guard : NetworkGuard) (row : Value) : Type 0 where
  pub entry : Fields
  pub audit : Items
  pub is_entry : row ≡ dict entry
  pub has_audit : get_or_null "io_audit" (to_dict entry) ≡ list audit
  pub allowed : All (λ v. IsAllowed (to_list roots) guard v) (to_list audit)

-- A line of the tool calls that is blank, or that reads as such a row.
pub data IsCall (lib : Library) (roots : Items) (guard : NetworkGuard) (line : String)
    : Type 0 where
  blank : strip line ≡ "" → IsCall lib roots guard line
  call :
      (row : Value)
      → lib.load line ≡ some row
      → IsAudited roots guard row
      → IsCall lib roots guard line

module _ (lib : Library) (roots : Items) (guard : NetworkGuard) where
  audit_sound :
      (n : ℕ) (v : Value)
      → audit_faults lib roots guard n v ≡ ok []
      → (audit : Items) × (v ≡ list audit)
        × All (λ w. IsAllowed (to_list roots) guard w) (to_list audit)
  audit_sound n (list audit) h =
      let (ds, e, m) =
        >>=-eq-ok (check_entries (list roots) guard "tool_calls.jsonl" n (to_list audit)) _ h in
      let none_found : ds ≡ [] = (map-nil_iff refused ds).0 (ok_inj m) in
      (
        audit,
        refl,
        (check_entries_iff roots guard "tool_calls.jsonl" n (to_list audit)).0 (rw none_found at e),
      )
  audit_sound n null h = absurd (found h)
  audit_sound n (bool b) h = absurd (found h)
  audit_sound n (int m) h = absurd (found h)
  audit_sound n (str s) h = absurd (found h)
  audit_sound n (dict f) h = absurd (found h)

  call_sound :
      (n : ℕ) (o : Option Value)
      → call_faults lib roots guard n o ≡ ok []
      → (row : Value) × (o ≡ some row) × IsAudited roots guard row
  call_sound n (some (dict f)) h =
      let (audit, e, allowed) = audit_sound n (get_or_null "io_audit" (to_dict f)) h in
      (
        dict f,
        refl,
        record { entry = f; audit = audit; is_entry = refl; has_audit = e; allowed = allowed },
      )
  call_sound n none h = absurd (found h)
  call_sound n (some null) h = absurd (ok-ne-raised (sym h))
  call_sound n (some (bool b)) h = absurd (ok-ne-raised (sym h))
  call_sound n (some (int m)) h = absurd (ok-ne-raised (sym h))
  call_sound n (some (str s)) h = absurd (ok-ne-raised (sym h))
  call_sound n (some (list vs)) h = absurd (ok-ne-raised (sym h))

  call_complete :
      (n : ℕ) (row : Value)
      → IsAudited roots guard row
      → call_faults lib roots guard n (some row) ≡ ok []
  call_complete n row a =
      rw
        (
          a.is_entry,
          a.has_audit,
          (check_entries_iff roots guard "tool_calls.jsonl" n (to_list a.audit)).1 a.allowed,
        )
        refl

  -- The loop over the lines finds nothing exactly when each line is blank or a call that is fine.
  pub calls_faults_iff :
      (n : ℕ) (lines : List String)
      → (calls_faults lib roots guard n lines ≡ ok []) ↔ All (IsCall lib roots guard) lines
  unfolding calls_faults
  calls_faults_iff n [] = (λ h. tt, λ h. refl)
  calls_faults_iff n (line ∷ lines) =
      let rest = calls_faults_iff (n + 1) lines in
      let both = λ (r : Result (List Fault)).
        found-append_iff r (calls_faults lib roots guard (n + 1) lines) in
      elim (Bool-cases (strip line == "")) [
        | inl e ↦ (
          λ h. (blank ((eq_iff (strip line) "").0 e), rest.0 ((both (ok [])).0 (rw e at h)).1),
          λ h. rw e ((both (ok [])).1 (refl, rest.1 h.1)),
        )
        | inr e ↦ (
          λ h.
              let (first, later) =
                (both (call_faults lib roots guard n (lib.load line))).0 (rw e at h) in
              let (row, l, a) = call_sound n (lib.load line) first in (call row l a, rest.0 later),
          λ h. rw e (
              (both (call_faults lib roots guard n (lib.load line))).1
                (line_complete n line e h.0, rest.1 h.1)),
        )
      ]
    where
      line_complete :
          (n : ℕ) (line : String)
          → (strip line == "") ≡ false
          → IsCall lib roots guard line
          → call_faults lib roots guard n (lib.load line) ≡ ok []
      line_complete n line e (blank b) = absurd (false≢true (sym e ∙ (eq_iff (strip line) "").1 b))
      line_complete n line e (call row l a) = rw l (call_complete n row a)
