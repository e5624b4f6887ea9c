-- ===== src/Runner/Action/Callable.antt =====
-- Which actions are accepted.
use tracecore.Prelude.{
  ◌≡◌, ◌≢◌, ◌↔◌, refl, false≢true, String, true, false, Option, none, some, List, [], ◌∷◌, ◌==◌,
  eq_iff, all, arith, inl, inr, ◌⊎◌, Bool-cases,
}
use tracecore.Prelude.Dict.{get, contains}
use tracecore.Value.{Value, Fields, null, bool, int, str, list, dict, get_or_null, as_dict, to_dict}
use tracecore.Runner.Action.{Schema, check_args, check_schema, check_type, validate_action}

-- A dict with the name of an action of the schema, and the arguments that the action asks for; the
-- arguments may be left out where it asks for none.
pub record IsCallable (action : Value) (schema : Schema) : Type 0 where
  pub fields : Fields
  pub kind : String
  pub required : List String
  pub object : action ≡ dict fields
  pub typed : get_or_null "type" (to_dict fields) ≡ str kind
  pub named : kind ≢ ""
  pub known : get kind schema ≡ some required
  pub given :
      ((get_or_null "args" (to_dict fields) ≡ null) × (required ≡ []))
      ⊎ ((args : Fields) × (get_or_null "args" (to_dict fields) ≡ dict args)
          × (all (λ key. contains key (to_dict args)) required ≡ true))

none_required :
    (required : List String)
    → all (λ key. contains {V = Value} key []) required ≡ true
    → required ≡ []
unfolding contains get
none_required [] h = refl
none_required (r ∷ rs) h = absurd (false≢true h)

args_sound :
    (required : List String) (v : Value)
    → check_args required v ≡ none
    → ((v ≡ null) × (required ≡ []))
      ⊎ ((args : Fields) × (v ≡ dict args)
          × (all (λ key. contains key (to_dict args)) required ≡ true))
args_sound required null h = elim (Bool-cases (all (λ key. contains {V = Value} key []) required)) [
  | inl e ↦ inl (refl, none_required required e)
  | inr e ↦ ground arith
]
args_sound required (dict f) h =
    elim (Bool-cases (all (λ key. contains key (to_dict f)) required)) [
      | inl e ↦ inr (f, refl, e)
      | inr e ↦ ground arith
    ]
args_sound required (bool b) h = cc
args_sound required (int n) h = cc
args_sound required (str s) h = cc
args_sound required (list vs) h = cc

schema_sound :
    (found : Option (List String)) (v : Value)
    → check_schema found v ≡ none
    → (required : List String) × (found ≡ some required) × (check_args required v ≡ none)
schema_sound none v h = cc
schema_sound (some required) v h = (required, refl, h)

type_sound :
    (v args : Value) (schema : Schema)
    → check_type v args schema ≡ none
    → (kind : String) × (v ≡ str kind) × (kind ≢ "") × (check_schema (get kind schema) args ≡ none)
type_sound (str t) args schema h = elim (Bool-cases (t == "")) [
  | inl e ↦ ground arith
  | inr e ↦ (t, refl, ground (arith, eq_iff t ""), rw e at h)
]
type_sound null args schema h = cc
type_sound (bool b) args schema h = cc
type_sound (int n) args schema h = cc
type_sound (list vs) args schema h = cc
type_sound (dict f) args schema h = cc

action_sound :
    (action : Value) (schema : Schema)
    → validate_action action schema ≡ none
    → IsCallable action schema
unfolding validate_action as_dict
action_sound (dict f) schema h =
    let (kind, typed, named, checked) =
      type_sound (get_or_null "type" (to_dict f)) (get_or_null "args" (to_dict f)) schema h in
    let (required, known, given) =
      schema_sound (get kind schema) (get_or_null "args" (to_dict f)) checked in
    record {
      fields = f;
      kind = kind;
      required = required;
      object = refl;
      typed = typed;
      named = named;
      known = known;
      given = args_sound required (get_or_null "args" (to_dict f)) given;
    }
action_sound null schema h = cc
action_sound (bool b) schema h = cc
action_sound (int n) schema h = cc
action_sound (str s) schema h = cc
action_sound (list vs) schema h = cc

action_complete :
    (action : Value) (schema : Schema)
    → IsCallable action schema
    → validate_action action schema ≡ none
unfolding validate_action as_dict
action_complete action schema c =
    let named : (c.kind == "") ≡ false = ground (arith, eq_iff c.kind "", c.named) in
    elim c.given [
      | inl (v, e) ↦ rw (c.object, c.typed, named, c.known, v, e) refl
      | inr (args, v, e) ↦ rw (c.object, c.typed, named, c.known, v, e) refl
    ]

-- An action is accepted exactly when it is a dict that names an action of the schema, and its
-- arguments are a dict with every parameter of the action, or are missing or null and the action
-- has no parameter.
pub validate_action_iff :
    (action : Value) (schema : Schema)
    → (validate_action action schema ≡ none) ↔ IsCallable action schema
validate_action_iff action schema = (action_sound action schema, action_complete action schema)
