-- ===== src/Value.antt =====
-- The JSON-like values that the program passes around: actions, results, artifacts. Floats are
-- not modelled: where the program rounds one, the model leaves the field out.
pub mod Equality
pub mod Defaults
use tracecore.Prelude.{
  ◌≡◌, refl, ap, ℕ, String, Bool, true, false, not, Option, none, some, List, [], ◌∷◌, ◌==◌,
  if◌then◌else◌, eqb,
}
use tracecore.Prelude.Int.{ℤ, pos, negsuc}
use tracecore.Prelude.Dict.{Dict, get, put, contains}

mutual
  pub data Value : Type 0 where
    null : Value
    bool : Bool → Value
    int : ℤ → Value
    str : String → Value
    list : Items → Value
    dict : Fields → Value

  pub data Items : Type 0 where
    nil : Items
    cons : Value → Items → Items

  pub data Fields : Type 0 where
    end : Fields
    field : String → Value → Fields → Fields

-- A dict of values as an association list, and back.
abbrev pub of_dict : Dict Value → Fields
of_dict [] = end
of_dict ((k, v) ∷ d) = field k v (of_dict d)

unfoldable pub to_dict : Fields → Dict Value
to_dict end = []
to_dict (field k v f) = (k, v) ∷ to_dict f

-- Back from the fields, a dict is what it was.
pub to_dict-of_dict : (d : Dict Value) → to_dict (of_dict d) ≡ d
unfolding to_dict
to_dict-of_dict [] = refl
to_dict-of_dict ((k, v) ∷ d) = ap (λ e. (k, v) ∷ e) (to_dict-of_dict d)

abbrev pub of_list : List Value → Items
of_list [] = nil
of_list (v ∷ vs) = cons v (of_list vs)

unfoldable pub to_list : Items → List Value
to_list nil = []
to_list (cons v vs) = v ∷ to_list vs

-- A dict literal.
abbrev pub obj : Dict Value → Value
obj d = dict (of_dict d)

-- `bool(v)`
unfoldable pub truthy : Value → Bool
truthy null = false
truthy (bool b) = b
truthy (int (pos n)) = not (eqb n 0)
truthy (int (negsuc n)) = true
truthy (str s) = not (s == "")
truthy (list nil) = false
truthy (list (cons v vs)) = true
truthy (dict end) = false
truthy (dict (field k v f)) = true

-- `d.get(k)` with the default `None`: a missing key and a key that holds `None` look alike.
unfoldable pub get_or_null : String → Dict Value → Value
get_or_null k d = elim (get k d) [ none ↦ null | some v ↦ v ]

-- `d.get(k, default)`
abbrev pub get_or : String → Value → Dict Value → Value
get_or k default d = elim (get k d) [ none ↦ default | some v ↦ v ]

-- `isinstance(v, dict)`, with the dict.
unfoldable pub as_dict : Value → Option (Dict Value)
unfolding to_dict
as_dict (dict f) = some (to_dict f)
as_dict _ = none

pub as_dict-obj : (d : Dict Value) → as_dict (obj d) ≡ some d
unfolding as_dict
as_dict-obj d = ap some (to_dict-of_dict d)

-- `isinstance(v, str)`, with the text.
unfoldable pub as_str : Value → Option String
as_str (str s) = some s
as_str _ = none

-- `isinstance(v, list)`, with the list.
unfoldable pub as_list : Value → Option (List Value)
unfolding to_list
as_list (list vs) = some (to_list vs)
as_list _ = none

-- `str(v)`, where the text of what is no text is given.
abbrev pub to_text : (Value → String) → Value → String
to_text text_of (str s) = s
to_text text_of v = text_of v

-- `v is None`
abbrev pub is_null : Value → Bool
is_null null = true
is_null _ = false

-- `v or w`
abbrev pub or_else : Value → Value → Value
or_else v w = if truthy v then v else w

-- `d.setdefault(k, v)`
abbrev pub set_default : String → Value → Dict Value → Dict Value
set_default k v d = if contains k d then d else put k v d

unfoldable pub set_defaults : Dict Value → Dict Value → Dict Value
set_defaults [] d = d
set_defaults ((k, v) ∷ defaults) d = set_defaults defaults (set_default k v d)

-- `dict(v)` of a dict, and a new dict otherwise.
abbrev pub dict_or_empty : Value → Dict Value
dict_or_empty (dict f) = to_dict f
dict_or_empty _ = []
