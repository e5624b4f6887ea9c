-- ===== src/Registry/Store.antt =====
-- The registry: a dict from identifiers and versions to descriptors.
use tracecore.Prelude.{
  String, Bool, ◌&&◌, Option, none, some, List, [], ◌∷◌, ◌++◌, ◌==◌, filter, if◌then◌else◌, map,
}
use tracecore.Prelude.Int.{ℤ, leb_ℤ}
use tracecore.Prelude.Sort.{sort_by, text_leb}
use tracecore.Value.Equality.{eq_int}
use tracecore.Registry.Descriptor.{TaskDescriptor}

abbrev pub Key : Type 0
Key = String × ℤ

abbrev pub same_key : Key → Key → Bool
same_key (a, m) (b, n) = a == b && eq_int m n

abbrev pub Registry : Type 0
Registry = List (Key × TaskDescriptor)

unfoldable pub register : Key → TaskDescriptor → Registry → Registry
register k d [] = (k, d) ∷ []
register k d ((j, e) ∷ r) =
    let rest = register k d r in if same_key j k then (j, d) ∷ r else (j, e) ∷ rest

-- The loop of `_ensure_registry`, over the builtin descriptors and then those of plugins.
unfoldable pub merge : List TaskDescriptor → Registry → Registry
unfolding register
merge [] merged = merged
merge (d ∷ ds) merged = merge ds (register (d.id, d.version) d merged)

abbrev pub ensure_registry : List TaskDescriptor → List TaskDescriptor → Registry
ensure_registry builtin plugins = merge (builtin ++ plugins) []

unfoldable pub lookup : Key → Registry → Option TaskDescriptor
lookup k [] = none
lookup k ((j, d) ∷ r) = if same_key j k then some d else lookup k r

abbrev pub matches : String → Registry → List TaskDescriptor
matches task_id r = map (λ e. e.1) (filter (λ e. (e.0.0) == task_id) r)

-- `sorted(…, reverse=True)` by the version: stable, the greatest first.
abbrev pub newer : TaskDescriptor → TaskDescriptor → Bool
newer d e = leb_ℤ e.version d.version

abbrev pub first : List TaskDescriptor → Option TaskDescriptor
first [] = none
first (d ∷ ds) = some d

unfoldable pub get_task_descriptor : String → Option ℤ → Registry → Option TaskDescriptor
get_task_descriptor task_id none r = first (sort_by newer (matches task_id r))
get_task_descriptor task_id (some version) r = lookup (task_id, version) r

-- The order of `(suite, id, version)`.
abbrev earlier : TaskDescriptor → TaskDescriptor → Bool
earlier d e =
    if d.suite == e.suite
    then if d.id == e.id then leb_ℤ d.version e.version else text_leb d.id e.id
    else text_leb d.suite e.suite

unfoldable pub list_task_descriptors : Registry → List TaskDescriptor
list_task_descriptors r = sort_by earlier (map (λ e. e.1) r)
