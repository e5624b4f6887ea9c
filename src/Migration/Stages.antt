-- ===== src/Migration/Stages.antt =====
-- What one step of the migration does to a key.
use tracecore.Prelude.{
  ◌≡◌, refl, sym, ◌∙◌, ap, String, Bool, true, false, not, Option, some, ◌==◌, eq_iff, eq_refl,
  Bool-cases, inl, inr, if◌then◌else◌,
}
use tracecore.Prelude.Dict.{Dict, put, get-put}
use tracecore.Value.{Value, null, bool, int, str, list, dict, get_or_null, is_null, truthy}
use tracecore.Value.Equality.{value_eq}
use tracecore.Failures.{checked_type, in_taxonomy, validate_failure_type}
use tracecore.Exc.{ok, ◌>>=◌, ok_inj, ok-ne-raised, >>=-eq-ok}
use tracecore.Migration.{Progress, set_value, settle, classify_value, failure_of}

pub get_or_null-put :
    (k j : String) (v : Value) (d : Dict Value)
    → get_or_null j (put k v d) ≡ (if k == j then v else get_or_null j d)
unfolding get_or_null
get_or_null-put k j v d = elim (Bool-cases (k == j)) [
  | inl e ↦ rw (get_or_null, get-put k j v d, e) refl
  | inr e ↦ rw (get_or_null, get-put k j v d, e) refl
]

-- The other keys stay.
pub get_or_null-set_value :
    (b : Bool) (k j : String) (v : Value) (p : Progress)
    → (k == j) ≡ false
    → get_or_null j ((set_value b k v p).0) ≡ get_or_null j (p.0)
unfolding set_value
get_or_null-set_value true k j v (d, c) h = rw (get_or_null-put k j v d, h) refl
get_or_null-set_value false k j v (d, c) h = refl

-- The key itself.
pub get_or_null-set_value_self :
    (b : Bool) (k : String) (v : Value) (p : Progress)
    → get_or_null k ((set_value b k v p).0) ≡ (if b then v else get_or_null k (p.0))
unfolding set_value
get_or_null-set_value_self true k v (d, c) = rw (get_or_null-put k k v d, eq_refl k) refl
get_or_null-set_value_self false k v (d, c) = refl

value_eq-str : (v : Value) (t : String) → value_eq v (str t) ≡ true → v ≡ str t
unfolding value_eq
value_eq-str (str s) t h = ap str ((eq_iff s t).0 h)
value_eq-str null t h = cc
value_eq-str (bool b) t h = cc
value_eq-str (int n) t h = cc
value_eq-str (list vs) t h = cc
value_eq-str (dict f) t h = cc

pub settle-str : (k t : String) (p : Progress) → get_or_null k ((settle k (str t) p).0) ≡ str t
settle-str k t p =
    let self =
      get_or_null-set_value_self (not (value_eq (get_or_null k (p.0)) (str t))) k (str t) p in
    elim (Bool-cases (value_eq (get_or_null k (p.0)) (str t))) [
      | inl e ↦ self ∙ rw e (value_eq-str (get_or_null k (p.0)) t e)
      | inr e ↦ self ∙ rw e refl
    ]

is_null-eq : (v : Value) → is_null v ≡ true → v ≡ null
is_null-eq null h = refl
is_null-eq (str s) h = cc
is_null-eq (bool b) h = cc
is_null-eq (int n) h = cc
is_null-eq (list vs) h = cc
is_null-eq (dict f) h = cc

pub set_value-null :
    (k : String) (p : Progress)
    → get_or_null k ((set_value (not (is_null (get_or_null k (p.0)))) k null p).0) ≡ null
set_value-null k p =
    let self = get_or_null-set_value_self (not (is_null (get_or_null k (p.0)))) k null p in
    elim (Bool-cases (is_null (get_or_null k (p.0)))) [
      | inl e ↦ self ∙ rw e (is_null-eq (get_or_null k (p.0)) e)
      | inr e ↦ self ∙ rw e refl
    ]

-- A failure type that is decided is one of the taxonomy.
abbrev pub IsFailureType : Option String → Type 0
IsFailureType o = (t : String) × (o ≡ some t) × (in_taxonomy t ≡ true)

validated-IsFailureType :
    (t : String) (o : Option String) → validate_failure_type false (some t) ≡ ok o → IsFailureType o
unfolding validate_failure_type
validated-IsFailureType t o h = elim (Bool-cases (in_taxonomy t)) [
  | inl e ↦ (t, sym (ok_inj (rw e at h)), e)
  | inr e ↦ absurd (ok-ne-raised (sym (rw e at h)))
]

checked_type-IsFailureType :
    (v : Value) (o : Option String) → checked_type v ≡ ok o → IsFailureType o
unfolding validate_failure_type
checked_type-IsFailureType (str t) o h = validated-IsFailureType t o h
checked_type-IsFailureType null o h = cc
checked_type-IsFailureType (bool b) o h = cc
checked_type-IsFailureType (int n) o h = cc
checked_type-IsFailureType (list vs) o h = cc
checked_type-IsFailureType (dict f) o h = cc

pub failure_of-IsFailureType :
    (failure_type reason : Value) (o : Option String)
    → failure_of failure_type reason ≡ ok o
    → IsFailureType o
failure_of-IsFailureType failure_type reason o h = elim (Bool-cases (truthy failure_type)) [
  | inl e ↦ checked_type-IsFailureType failure_type o (rw e at h)
  | inr e ↦
      let chain : (classify_value reason >>= (λ t. validate_failure_type false (some t))) ≡ ok o =
        rw e at h in
      let (t, c, v) = >>=-eq-ok (classify_value reason) _ chain in validated-IsFailureType t o v
]
