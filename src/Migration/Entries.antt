-- ===== src/Migration/Entries.antt =====
-- The entries of a trace that was brought up to date.
use tracecore.Prelude.{
  ℕ, suc, ◌≤◌, ◌≡◌, refl, ap, String, true, false, [], ◌∷◌, ◌==◌, length, All, Bool-cases, inl, inr,
  arith,
}
use tracecore.Prelude.Dict.{Dict, get, put, contains}
use tracecore.Value.{
  to_dict-of_dict, Value, null, bool, int, str, list, dict, Items, nil, cons, Fields, end, field,
  obj, of_dict, to_dict, to_list, set_default, set_defaults, dict_or_empty,
}
use tracecore.Value.Defaults.{contains-set_default, contains-set_defaults}
use tracecore.Value.Equality.{value_eq, eq_items, size}
use tracecore.Spec.Parts.{IsEntry}
use tracecore.Migration.{entry_defaults, trace_from}

HasKeys : Dict Value → Dict Value → Type 0
HasKeys defaults d = All (λ e. contains (e.0) d ≡ true) defaults

size-of_dict : (d : Dict Value) → size (of_dict d) ≡ length d
size-of_dict [] = refl
size-of_dict ((k, v) ∷ d) = ap suc (size-of_dict d)

length-to_dict : (f : Fields) → length (to_dict f) ≡ size f
unfolding to_dict
length-to_dict end = refl
length-to_dict (field k v f) = ap suc (length-to_dict f)

length-put :
    (k : String) (v : Value) (d : Dict Value)
    → contains k d ≡ false
    → length (put k v d) ≡ suc (length d)
unfolding get put
length-put k v [] h = refl
length-put k v ((j, w) ∷ d) h = elim (Bool-cases (j == k)) [
  | inl e ↦ cc
  | inr e ↦
      let later : contains k d ≡ false = rw (contains, e) at h in
      rw e (ap suc (length-put k v d later))
]

length-set_defaults : (defaults d : Dict Value) → length d ≤ length (set_defaults defaults d)
unfolding set_defaults
length-set_defaults [] d = omega arith
length-set_defaults ((k, v) ∷ defaults) d = elim (Bool-cases (contains k d)) [
  | inl e ↦ rw e (length-set_defaults defaults d)
  | inr e ↦ rw e (omega (arith, length-put k v d e, length-set_defaults defaults (put k v d)))
]

-- Defaults that add nothing were there.
set_defaults-HasKeys :
    (defaults d : Dict Value) → length (set_defaults defaults d) ≡ length d → HasKeys defaults d
unfolding set_defaults HasKeys
set_defaults-HasKeys [] d h = tt
set_defaults-HasKeys ((k, v) ∷ defaults) d h = elim (Bool-cases (contains k d)) [
  | inl e ↦ (e, set_defaults-HasKeys defaults d (rw e at h))
  | inr e ↦
      let more : length (set_defaults defaults (put k v d)) ≡ length d = rw e at h in
      absurd (omega (arith, length-put k v d e, length-set_defaults defaults (put k v d)))
]

HasKeys-set_defaults : (defaults d : Dict Value) → HasKeys defaults (set_defaults defaults d)
unfolding set_defaults HasKeys
HasKeys-set_defaults [] d = tt
HasKeys-set_defaults ((k, v) ∷ defaults) d = (
  contains-set_defaults k defaults (set_default k v d) (contains-set_default k v d),
  HasKeys-set_defaults defaults (set_default k v d),
)

-- The entries of a trace that was replaced.
pub trace_from-IsEntry :
    (started_at : Value) (index : ℕ) (vs : Items)
    → All IsEntry (to_list (trace_from started_at index vs))
unfolding trace_from to_list HasKeys
trace_from-IsEntry s i nil = tt
trace_from-IsEntry s i (cons raw rest) = (
  rw (to_dict-of_dict (set_defaults (entry_defaults s i) (dict_or_empty raw)))
      (HasKeys-set_defaults (entry_defaults s i) (dict_or_empty raw)),
  trace_from-IsEntry s (suc i) rest,
)

settled-IsEntry :
    (started_at : Value) (index : ℕ) (raw : Value)
    → value_eq raw (obj (set_defaults (entry_defaults started_at index) (dict_or_empty raw))) ≡ true
    → IsEntry raw
unfolding value_eq HasKeys
settled-IsEntry s i (dict f) h =
    let d = set_defaults (entry_defaults s i) (to_dict f) in
    let same : size f ≡ size (of_dict d) = ground arith in
    set_defaults-HasKeys (entry_defaults s i) (to_dict f)
      (omega (arith, size-of_dict d, length-to_dict f))
settled-IsEntry s i null h = cc
settled-IsEntry s i (bool b) h = cc
settled-IsEntry s i (int n) h = cc
settled-IsEntry s i (str t) h = cc
settled-IsEntry s i (list vs) h = cc

-- The entries of a trace that was left, since it was equal to what it should be.
pub eq_items-IsEntry :
    (started_at : Value) (index : ℕ) (vs : Items)
    → eq_items vs (trace_from started_at index vs) ≡ true
    → All IsEntry (to_list vs)
unfolding value_eq trace_from to_list
eq_items-IsEntry s i nil h = tt
eq_items-IsEntry s i (cons raw rest) h =
    (settled-IsEntry s i raw (ground arith), eq_items-IsEntry s (suc i) rest (ground arith))
