-- ===== src/Registry/Descriptor.antt =====
-- `TaskDescriptor` and `_enrich_descriptor`.
use tracecore.Prelude.{
  String, Bool, true, false, not, ◌&&◌, Option, none, some, [], is_empty, if◌then◌else◌,
}
use tracecore.Prelude.Int.{ℤ, pos}
use tracecore.Prelude.Dict.{Dict, get, put}
use tracecore.Value.{
  Value, bool, int, str, obj, truthy, get_or_null, get_or, to_text, is_null, set_default,
}
use tracecore.Value.Equality.{value_eq, eq_int}
use tracecore.Exc.{Result, ok, raised, ◌>>=◌, value_error}
use tracecore.Registry.Manifest.{default_sandbox, sandbox_value, load_task_manifest}

-- `TaskDescriptor`, without its loader.
pub record TaskDescriptor : Type 0 where
  pub id : String
  pub suite : String
  pub version : ℤ
  pub description : String
  pub deterministic : Bool
  pub path : Option String
  pub metadata : Dict Value

-- A key of the manifest is carried into the metadata.
abbrev carry : String → Dict Value → Dict Value → Dict Value
carry k manifest metadata = elim (get k manifest) [ none ↦ metadata | some v ↦ put k v metadata ]

abbrev carried : Dict Value → Dict Value → Dict Value
carried manifest metadata =
    put "sandbox" (get_or "sandbox" (sandbox_value default_sandbox) manifest) (
      carry "setup" manifest (
        carry "validator" manifest (
          carry "action_surface" manifest
            (carry "seed_behavior" manifest (carry "default_budget" manifest metadata)))))

-- A text of the manifest that is there and differs from the registry's.
abbrev pub disagrees : Value → String → Bool
disagrees v t = truthy v && not (value_eq v (str t))

abbrev pub completed : TaskDescriptor → TaskDescriptor
completed d = record d {
  metadata =
      set_default "default_budget" (obj [])
        (set_default "sandbox" (sandbox_value default_sandbox) d.metadata);
}

module _ (text_of : Value → String) (int_of : Value → Result ℤ) where
  -- `int(v)`
  abbrev pub to_int : Value → Result ℤ
  to_int (int n) = ok n
  to_int (bool true) = ok (pos 1)
  to_int (bool false) = ok (pos 0)
  to_int v = int_of v

  abbrev pub same_version : Value → ℤ → Result Bool
  same_version v n = if not (truthy v) then ok true else do m ← to_int v; ok (eq_int m n)

  abbrev pub described : Dict Value → TaskDescriptor → TaskDescriptor
  described manifest d = record d {
    description =
        if truthy (get_or_null "description" manifest)
        then to_text text_of (get_or_null "description" manifest)
        else d.description;
    deterministic =
        if is_null (get_or_null "deterministic" manifest)
        then d.deterministic
        else truthy (get_or_null "deterministic" manifest);
    metadata = carried manifest d.metadata;
  }

  abbrev pub enrich_from : Dict Value → TaskDescriptor → Result TaskDescriptor
  enrich_from manifest d =
      if disagrees (get_or_null "id" manifest) d.id
      then raised (value_error "id")
      else if disagrees (get_or_null "suite" manifest) d.suite
      then raised (value_error "suite")
      else do
        same ← same_version (get_or_null "version" manifest) d.version
        if same then ok (completed (described manifest d)) else raised (value_error "version")

  -- `_enrich_descriptor`, with the two files of the task's directory, when there is one.
  unfoldable pub enrich_descriptor :
      Option (Dict Value × Dict Value) → TaskDescriptor → Result TaskDescriptor
  enrich_descriptor none d = ok (completed d)
  enrich_descriptor (some (toml_data, yaml_data)) d = do
    manifest ← load_task_manifest text_of toml_data yaml_data
    if is_empty manifest then ok (completed d) else enrich_from manifest d
