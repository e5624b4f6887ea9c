-- ===== src/Registry/Manifest.antt =====
-- The manifest of a task: `_validate_task_manifest`, `_normalize_task_manifest` and
-- `_load_task_manifest`.
use tracecore.Prelude.{
  String, Bool, true, false, ◌||◌, List, [], ◌∷◌, ◌++◌, all, is_empty, if◌then◌else◌, map,
}
use tracecore.Prelude.Dict.{Dict}
use tracecore.Prelude.Text.{◌<>◌, lower, strip}
use tracecore.Value.{
  Value, bool, int, str, list, dict, obj, of_list, to_list, to_dict, truthy, get_or_null, to_text,
  is_null,
}
use tracecore.Env.Path.{normalize_fs_root}
use tracecore.Exc.{Result, ok, raised, ◌>>=◌, value_error, map_result}

-- The types that `require_key` asks for.
pub data Kind : Type 0 where
  text_kind int_kind bool_kind : Kind

abbrev pub is_kind : Kind → Value → Bool
is_kind text_kind (str s) = true
is_kind int_kind (int n) = true
is_kind int_kind (bool b) = true
is_kind bool_kind (bool b) = true
is_kind _ _ = false

-- `not isinstance(v, dict)`, and so on.
abbrev pub is_dict : Value → Bool
is_dict (dict f) = true
is_dict _ = false

abbrev pub is_text_list : Value → Bool
is_text_list (list vs) = all (is_kind text_kind) (to_list vs)
is_text_list _ = false

-- What is wrong with a manifest.
pub data Fault : Type 0 where
  missing_field : String → Fault
  wrong_type : String → Kind → Fault
  not_a_table : String → Fault
  not_texts : String → Fault

abbrev pub typed_faults : String → Kind → Value → List Fault
typed_faults key kind v =
    if is_null v
    then missing_field key ∷ []
    else if is_kind kind v
    then []
    else wrong_type key kind ∷ []

abbrev pub require_key : String → Kind → Dict Value → List Fault
require_key key kind raw = typed_faults key kind (get_or_null key raw)

-- A key of a table has a type.
abbrev pub sub_key : String → String → Kind → Dict Value → List Fault
sub_key table key kind d =
    if is_kind kind (get_or_null key d) then [] else wrong_type (table <> "." <> key) kind ∷ []

abbrev pub budget_faults : Value → List Fault
budget_faults (dict f) =
    sub_key "budgets" "steps" int_kind (to_dict f)
    ++ sub_key "budgets" "tool_calls" int_kind (to_dict f)
budget_faults _ = not_a_table "budgets" ∷ []

abbrev pub text_table : String → String → Value → List Fault
text_table table key (dict f) = sub_key table key text_kind (to_dict f)
text_table table key _ = not_a_table table ∷ []

abbrev pub list_faults : String → Value → List Fault
list_faults key v = if is_text_list v then [] else not_texts key ∷ []

abbrev pub sandbox_faults : Bool → Value → List Fault
sandbox_faults true (dict f) =
    list_faults "filesystem_roots" (get_or_null "filesystem_roots" (to_dict f))
    ++ list_faults "network_hosts" (get_or_null "network_hosts" (to_dict f))
sandbox_faults true v = not_a_table "sandbox" ∷ []
sandbox_faults false v = if is_null v || is_dict v then [] else not_a_table "sandbox" ∷ []

-- The errors of `_validate_task_manifest`, which raises when there is one.
unfoldable pub manifest_faults : Dict Value → List Fault
manifest_faults raw =
    require_key "id" text_kind raw
    ++ require_key "suite" text_kind raw
    ++ require_key "version" int_kind raw
    ++ require_key "description" text_kind raw
    ++ require_key "deterministic" bool_kind raw
    ++ require_key "seed_behavior" text_kind raw
    ++ budget_faults (get_or_null "budgets" raw)
    ++ text_table "action_surface" "source" (get_or_null "action_surface" raw)
    ++ text_table "validator" "entrypoint" (get_or_null "validator" raw)
    ++ sandbox_faults (truthy (get_or_null "deterministic" raw)) (get_or_null "sandbox" raw)

unfoldable pub validate_task_manifest : Dict Value → Result (Unit {0})
unfolding manifest_faults
validate_task_manifest raw =
    if is_empty (manifest_faults raw) then ok tt else raised (value_error "manifest")

pub record Sandbox : Type 0 where
  pub filesystem_roots : List String
  pub network_hosts : List String

abbrev pub default_sandbox : Sandbox
default_sandbox = record { filesystem_roots = []; network_hosts = [] }

abbrev normalize_host_entry : String → String
normalize_host_entry host = lower (strip host)

abbrev list_or_empty : Value → List Value
list_or_empty (list vs) = to_list vs
list_or_empty _ = []

module _ (text_of : Value → String) where
  abbrev sandbox_table : Dict Value → Result Sandbox
  sandbox_table raw = do
    roots ←
        map_result (λ root. normalize_fs_root (to_text text_of root))
          (list_or_empty (get_or_null "filesystem_roots" raw))
    ok (record {
      filesystem_roots = roots;
      network_hosts =
          map (λ host. normalize_host_entry (to_text text_of host))
            (list_or_empty (get_or_null "network_hosts" raw));
    })

  -- `_normalize_sandbox`
  unfoldable pub normalize_sandbox : Value → Result Sandbox
  normalize_sandbox (dict f) = sandbox_table (to_dict f)
  normalize_sandbox _ = ok default_sandbox

abbrev texts : List String → Value
texts ts = list (of_list (map str ts))

abbrev pub sandbox_value : Sandbox → Value
sandbox_value s =
    obj (
      ("filesystem_roots", texts s.filesystem_roots)
      ∷ ("network_hosts", texts s.network_hosts)
      ∷ [])

abbrev table_or_empty : Value → Value
table_or_empty (dict f) = dict f
table_or_empty _ = obj []

module _ (text_of : Value → String) where
  -- `_normalize_task_manifest`
  unfoldable pub normalize_task_manifest : Dict Value → Result (Dict Value)
  normalize_task_manifest raw = do
    sandbox ← normalize_sandbox text_of (get_or_null "sandbox" raw)
    ok (
        ("id", get_or_null "id" raw)
        ∷ ("suite", get_or_null "suite" raw)
        ∷ ("version", get_or_null "version" raw)
        ∷ ("description", get_or_null "description" raw)
        ∷ ("deterministic", get_or_null "deterministic" raw)
        ∷ ("default_budget", table_or_empty (get_or_null "budgets" raw))
        ∷ ("seed_behavior", get_or_null "seed_behavior" raw)
        ∷ ("action_surface", get_or_null "action_surface" raw)
        ∷ ("validator", get_or_null "validator" raw)
        ∷ ("setup", get_or_null "setup" raw)
        ∷ ("sandbox", sandbox_value sandbox)
        ∷ [])

  -- `_load_task_manifest`, of what the two files hold; a file that is not there holds nothing.
  unfoldable pub load_task_manifest : Dict Value → Dict Value → Result (Dict Value)
  load_task_manifest [] yaml_data = ok yaml_data
  load_task_manifest (e ∷ toml_data) yaml_data = do
    valid ← validate_task_manifest (e ∷ toml_data)
    normalize_task_manifest (e ∷ toml_data)
