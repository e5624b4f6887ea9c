-- ===== src/Tests/Tasks.antt =====
-- The manifest of a task and the registry.
use tracecore.Prelude.{refl, ◌≡◌, ◌++◌, String, none, some, List, [], ◌∷◌, true, false, is_empty}
use tracecore.Prelude.Int.{ℤ, pos}
use tracecore.Prelude.Dict.{Dict, get}
use tracecore.Value.{
  Value, bool, int, str, list, obj, of_list, to_dict, to_list, get_or_null, truthy,
}
use tracecore.Value.Equality.{value_eq}
use tracecore.Exc.{Result, ok, raised, value_error}
use tracecore.Registry.Manifest.{validate_task_manifest, load_task_manifest}
use tracecore.Registry.Valid.{IsManifest, validate_task_manifest_iff}
use tracecore.Registry.Descriptor.{TaskDescriptor, enrich_descriptor}
use tracecore.Registry.Enriched.{IsEnriched, AgreesWith, enrich_descriptor-IsEnriched}
use tracecore.Registry.Store.{get_task_descriptor, ensure_registry}
use tracecore.Registry.Latest.{IsLatest, get_task_descriptor-IsLatest}

abbrev text_of : Value → String
text_of v = ""

abbrev int_of : Value → Result ℤ
int_of v = raised (value_error "int")

abbrev manifest : Dict Value
manifest =
    ("id", str "dice_game")
    ∷ ("suite", str "games")
    ∷ ("version", int (pos 1))
    ∷ ("description", str "Roll.")
    ∷ ("deterministic", bool true)
    ∷ ("seed_behavior", str "fixed")
    ∷ ("budgets", obj (("steps", int (pos 5)) ∷ ("tool_calls", int (pos 5)) ∷ []))
    ∷ ("action_surface", obj (("source", str "actions.py") ∷ []))
    ∷ ("validator", obj (("entrypoint", str "validate.py:validate") ∷ []))
    ∷ (
      "sandbox",
      obj (
          ("filesystem_roots", list (of_list (str "/app" ∷ [])))
          ∷ ("network_hosts", list (of_list []))
          ∷ []),
    )
    ∷ []

validate_task_manifest_iff_example : IsManifest manifest
unfolding validate_task_manifest get_or_null get to_dict truthy to_list
validate_task_manifest_iff_example = (validate_task_manifest_iff manifest).0 refl

abbrev described : String → ℤ → TaskDescriptor
described text version = record {
  id = "dice_game";
  suite = "games";
  version = version;
  description = text;
  deterministic = true;
  path = some "/tasks/dice_game";
  metadata = [];
}

-- The descriptor as the manifest of another format leaves it.
abbrev yaml : Dict Value
yaml = ("id", str "dice_game") ∷ ("version", int (pos 1)) ∷ ("description", str "Roll.") ∷ []

abbrev descriptor_of : Result TaskDescriptor → TaskDescriptor
descriptor_of (ok d) = d
descriptor_of (raised e) = described "" (pos 0)

abbrev enriched : TaskDescriptor
enriched = descriptor_of (enrich_descriptor text_of int_of (some ([], yaml)) (described "" (pos 1)))

enrich_descriptor-IsEnriched_example :
    IsEnriched (described "" (pos 1)) enriched
    × ((m : Dict Value) × (load_task_manifest text_of [] yaml ≡ ok m)
        × (is_empty m ≡ false → AgreesWith text_of int_of m (described "" (pos 1))))
unfolding enrich_descriptor load_task_manifest truthy get_or_null get value_eq
enrich_descriptor-IsEnriched_example =
    enrich_descriptor-IsEnriched text_of int_of [] yaml (described "" (pos 1)) enriched refl

abbrev builtin : List TaskDescriptor
builtin = described "first" (pos 1) ∷ described "second" (pos 2) ∷ []

abbrev plugins : List TaskDescriptor
plugins = described "plugin" (pos 1) ∷ []

get_task_descriptor-IsLatest_example :
    IsLatest "dice_game"
      (get_task_descriptor "dice_game" none (ensure_registry builtin plugins))
      (builtin ++ plugins)
get_task_descriptor-IsLatest_example = get_task_descriptor-IsLatest builtin plugins "dice_game"
