-- ===== src/Spec/Parts.antt =====
-- What each part of the report of an artifact means.
use tracecore.Prelude.{
  ◌↔◌, ◌≡◌, refl, ap, String, Bool, true, false, not, Option, none, some, List, [], ◌∷◌, ◌++◌, ◌==◌,
  eq_iff, any, filter, map, append-nil_iff, filter-nil_iff, map-nil_iff, All, Any, any-Any, Any-any,
  Bool-cases, inl, inr, arith, ℕ, suc,
}
use tracecore.Prelude.Dict.{Dict, contains}
use tracecore.Prelude.Text.{starts_with}
use tracecore.Prelude.Sort.{sort_by-nil_iff, text_leb}
use tracecore.Value.{
  Value, null, bool, int, str, list, dict, truthy, get_or_null, as_dict, to_dict, to_text,
}
use tracecore.Exc.{ok, ok_inj}
use tracecore.Spec.{
  trace_entry_required, canonical_failure_types, schema_errors, missing, mentioned, report_missing,
  error_if, trace_errors, list_errors, identity_errors,
}

abbrev pub HasAll : List String → Dict Value → Type 0
HasAll required d = All (λ k. contains k d ≡ true) required

abbrev pub HasIdentity : Value → Type 0
HasIdentity null = Unit
HasIdentity (dict f) =
    (truthy (get_or_null "name" (to_dict f)) ≡ true)
    × (truthy (get_or_null "version" (to_dict f)) ≡ true)
HasIdentity _ = ⊥

abbrev pub HasHash : (Value → String) → Value → Type 0
HasHash text_of null = Unit
HasHash text_of v = starts_with (to_text text_of v) "sha256:" ≡ true

abbrev pub IsCanonical : Value → Type 0
IsCanonical null = Unit
IsCanonical (str t) = Any (λ f. t ≡ f) canonical_failure_types
IsCanonical _ = ⊥

abbrev pub IsEntry : Value → Type 0
IsEntry (dict f) = HasAll trace_entry_required (to_dict f)
IsEntry _ = ⊥

abbrev pub AreEntries : Option (List Value) → Type 0
AreEntries none = Unit
AreEntries (some entries) = All IsEntry entries

pub error_if_iff : (b : Bool) (e : String) → (error_if b e ≡ []) ↔ (b ≡ false)
error_if_iff true e = (λ h. cc, λ h. cc)
error_if_iff false e = (λ h. refl, λ h. refl)

All-not :
    (d : Dict Value) (ks : List String) → All (λ k. not (contains k d) ≡ false) ks ↔ HasAll ks d
All-not d [] = (λ h. tt, λ h. tt)
All-not d (k ∷ ks) =
    (λ h. (ground arith, (All-not d ks).0 h.1), λ h. (ground arith, (All-not d ks).1 h.1))

pub missing_iff :
    (required : List String) (d : Dict Value) → (missing required d ≡ []) ↔ HasAll required d
missing_iff required d =
    let s = sort_by-nil_iff text_leb (filter (λ k. not (contains k d)) required) in
    let f = filter-nil_iff (λ k. not (contains k d)) required in
    let n = All-not d required in (λ h. n.0 (f.0 (s.0 h)), λ h. s.1 (f.1 (n.1 h)))

-- Errors that are there stay.
report_missing-cons :
    (e : String) (errors keys : List String) → report_missing (e ∷ errors) keys ≡ [] → ⊥
unfolding report_missing
report_missing-cons e errors [] h = cc
report_missing-cons e errors (k ∷ keys) h = elim (Bool-cases (mentioned k (e ∷ errors))) [
  | inl m ↦ report_missing-cons e errors keys (rw m at h)
  | inr m ↦ report_missing-cons e _ keys (rw m at h)
]

pub report_missing_iff :
    (errors keys : List String) → (report_missing errors keys ≡ []) ↔ ((errors ≡ []) × (keys ≡ []))
unfolding report_missing
report_missing_iff [] [] = (λ h. (refl, refl), λ h. refl)
report_missing_iff [] (k ∷ keys) = (λ h. absurd (report_missing-cons _ [] keys h), λ h. cc)
report_missing_iff (e ∷ errors) keys = (λ h. absurd (report_missing-cons e errors keys h), λ h. cc)

pub schema_errors_iff :
    (path : String) (schema : Option (List String))
    → (schema_errors path schema ≡ []) ↔ (schema ≡ some [])
schema_errors_iff path none = (λ h. cc, λ h. cc)
schema_errors_iff path (some ms) = (λ h. rw h refl, λ h. cc)

pub identity_errors_iff : (v : Value) → (identity_errors v ≡ []) ↔ HasIdentity v
identity_errors_iff null = (λ h. tt, λ h. refl)
identity_errors_iff (dict f) =
    let absent : String → Bool = λ sub. not (truthy (get_or_null sub (to_dict f))) in
    let m = map-nil_iff _ (filter absent ("name" ∷ "version" ∷ [])) in
    let e = filter-nil_iff absent ("name" ∷ "version" ∷ []) in
    (
      λ h. let k = e.0 (m.0 h) in (ground (arith, k.0), ground (arith, k.1.0)),
      λ h. m.1 (e.1 ((ground (arith, h.0), (ground (arith, h.1), tt)))),
    )
identity_errors_iff (str s) = (λ h. cc, λ h. absurd h)
identity_errors_iff (bool b) = (λ h. cc, λ h. absurd h)
identity_errors_iff (int n) = (λ h. cc, λ h. absurd h)
identity_errors_iff (list vs) = (λ h. cc, λ h. absurd h)

trace_errors_iff :
    (idx : ℕ) (entries : List Value) → (trace_errors idx entries ≡ []) ↔ All IsEntry entries
unfolding trace_errors as_dict
trace_errors_iff idx [] = (λ h. tt, λ h. refl)
trace_errors_iff idx (dict f ∷ entries) =
    let a =
      append-nil_iff (map _ (missing trace_entry_required (to_dict f)))
        (trace_errors (suc idx) entries) in
    let m = map-nil_iff _ (missing trace_entry_required (to_dict f)) in
    let e = missing_iff trace_entry_required (to_dict f) in
    let rest = trace_errors_iff (suc idx) entries in
    (λ h. (e.0 (m.0 ((a.0 h).0)), rest.0 ((a.0 h).1)), λ h. a.1 (m.1 (e.1 (h.0)), rest.1 (h.1)))
trace_errors_iff idx (null ∷ entries) = (λ h. cc, λ h. absurd h.0)
trace_errors_iff idx (bool b ∷ entries) = (λ h. cc, λ h. absurd h.0)
trace_errors_iff idx (int n ∷ entries) = (λ h. cc, λ h. absurd h.0)
trace_errors_iff idx (str s ∷ entries) = (λ h. cc, λ h. absurd h.0)
trace_errors_iff idx (list vs ∷ entries) = (λ h. cc, λ h. absurd h.0)

pub list_errors_iff : (o : Option (List Value)) → (list_errors o ≡ []) ↔ AreEntries o
list_errors_iff none = (λ h. tt, λ h. refl)
list_errors_iff (some entries) = trace_errors_iff 1 entries

pub canonical_iff :
    (t : String) → (not (any (λ f. t == f) canonical_failure_types) ≡ false) ↔ IsCanonical (str t)
canonical_iff t = (
  λ h. any-Any _ _ (λ f e. (eq_iff t f).0 e) canonical_failure_types (ground arith),
  λ h.
      rw (Any-any (λ f. t == f) (λ f. t ≡ f) (λ f e. (eq_iff t f).1 e) canonical_failure_types h)
        refl,
)

pub ok-error_if_iff : (b : Bool) (e : String) → (ok (error_if b e) ≡ ok []) ↔ (b ≡ false)
ok-error_if_iff b e = (λ h. (error_if_iff b e).0 (ok_inj h), λ h. ap ok ((error_if_iff b e).1 h))

-- A report is empty when each of its parts is.
pub appended_iff :
    (a b c d e f g : List String)
    → (a ++ b ++ c ++ d ++ e ++ f ++ g ≡ [])
      ↔ ((a ≡ []) × (b ≡ []) × (c ≡ []) × (d ≡ []) × (e ≡ []) × (f ≡ []) × (g ≡ []))
appended_iff [] [] [] [] [] [] g =
    (λ h. (refl, refl, refl, refl, refl, refl, h), λ h. let (p, q, r, s, t, u, v) = h in v)
appended_iff [] [] [] [] [] (x ∷ f) g = (λ h. cc, λ h. cc)
appended_iff [] [] [] [] (x ∷ e) f g = (λ h. cc, λ h. cc)
appended_iff [] [] [] (x ∷ d) e f g = (λ h. cc, λ h. cc)
appended_iff [] [] (x ∷ c) d e f g = (λ h. cc, λ h. cc)
appended_iff [] (x ∷ b) c d e f g = (λ h. cc, λ h. cc)
appended_iff (x ∷ a) b c d e f g = (λ h. cc, λ h. cc)

pub unless_iff : (b : Bool) (e : String) → (error_if (not b) e ≡ []) ↔ (b ≡ true)
unless_iff true e = (λ h. refl, λ h. refl)
unless_iff false e = (λ h. cc, λ h. cc)
