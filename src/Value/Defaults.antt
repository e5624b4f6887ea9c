-- ===== src/Value/Defaults.antt =====
-- The keys of a dict after `d[k] = v` and `d.setdefault(k, v)`.
use tracecore.Prelude.{
  ◌≡◌, refl, String, true, [], ◌∷◌, ◌==◌, eq_refl, Bool-cases, inl, inr, if◌then◌else◌,
}
use tracecore.Prelude.Dict.{Dict, contains, put, get-put}
use tracecore.Value.{Value, set_default, set_defaults, get_or_null}

pub contains-put :
    (k j : String) (v : Value) (d : Dict Value)
    → contains j d ≡ true
    → contains j (put k v d) ≡ true
contains-put k j v d h = elim (Bool-cases (k == j)) [
  | inl e ↦ rw (contains, get-put k j v d, e) refl
  | inr e ↦ rw (contains, get-put k j v d, e) h
]

pub contains-set_defaults :
    (j : String) (defaults d : Dict Value)
    → contains j d ≡ true
    → contains j (set_defaults defaults d) ≡ true
unfolding set_defaults
contains-set_defaults j [] d h = h
contains-set_defaults j ((k, v) ∷ defaults) d h = elim (Bool-cases (contains k d)) [
  | inl e ↦ rw e (contains-set_defaults j defaults d h)
  | inr e ↦ rw e (contains-set_defaults j defaults (put k v d) (contains-put k j v d h))
]

pub contains-set_default :
    (k : String) (v : Value) (d : Dict Value) → contains k (set_default k v d) ≡ true
contains-set_default k v d = elim (Bool-cases (contains k d)) [
  | inl e ↦ rw e e
  | inr e ↦ rw (e, contains, get-put k k v d, eq_refl k) refl
]

pub set_default-keeps :
    (k j : String) (v : Value) (d : Dict Value)
    → contains j d ≡ true
    → contains j (set_default k v d) ≡ true
set_default-keeps k j v d h = elim (Bool-cases (contains k d)) [
  | inl e ↦ rw e h
  | inr e ↦ rw e (contains-put k j v d h)
]

pub get_or_null-put :
    (k j : String) (v : Value) (d : Dict Value)
    → get_or_null j (put k v d) ≡ (if k == j then v else get_or_null j d)
unfolding get_or_null
get_or_null-put k j v d =
    rw (get_or_null, get-put k j v d)
      (elim (Bool-cases (k == j)) [ inl e ↦ rw e refl | inr e ↦ rw e refl ])
