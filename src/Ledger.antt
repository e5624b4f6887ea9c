-- ===== src/Ledger.antt =====
-- The ledger of agents: agent_bench/ledger/__init__.py. The registry is a file of JSON; an entry
-- whose `agent` is no text is not modelled.
pub mod Signing
pub mod Signed
pub mod Found
use tracecore.Prelude.{
  ℕ, String, Bool, true, false, not, ◌&&◌, ◌||◌, Option, none, some, List, [], ◌∷◌, ◌==◌,
  if◌then◌else◌, filter, map, any,
}
use tracecore.Prelude.Dict.{Dict, get, put}
use tracecore.Prelude.Sort.{sort_by, text_leb}
use tracecore.Prelude.Text.{empty, ◌◃◌, split, strip, has_char, ends_with, ◌<>◌}
use tracecore.Value.{
  Value, null, str, list, nil, dict, obj, to_dict, to_list, truthy, as_str, as_dict, get_or_null,
  get_or,
}
use tracecore.Value.Equality.{value_eq}
use tracecore.Exc.{
  Result, ok, raised, ◌>>=◌, runtime_error, value_error, type_error, attribute_error,
}
use tracecore.Env.Path.{parts}
use tracecore.Files.{Library}
use tracecore.Ledger.Signing.{PrivateKey, Tools, update, sign_registry}

-- The name of a path and its stem, as `pathlib` has them.
abbrev last_part : List String → String
last_part [] = ""
last_part (p ∷ []) = p
last_part (p ∷ q ∷ ps) = last_part (q ∷ ps)

-- The text before the last dot of a text that holds one.
abbrev before_dot : String → String
before_dot empty = empty
before_dot (c ◃ s) = let rest = before_dot s in if has_char b'.' s then c ◃ rest else empty

-- `Path(s).stem`: a dot that is first or last in the name is none of a suffix.
unfoldable pub stem : String → String
unfolding parts split has_char ends_with
stem path =
    let name = last_part (parts (split b'/' path)) in
    if has_char b'.' name && not (before_dot name == "") && not (ends_with name ".")
    then before_dot name
    else name

-- `_registry_entries`
abbrev pub entries_of : Value → Result (List Value)
entries_of (list vs) = ok (to_list vs)
entries_of v = raised (type_error "entries")

abbrev pub registry_entries : Dict Value → Result (List Value)
registry_entries registry = entries_of (get_or "entries" (list nil) registry)

-- The test of an entry. The path of what is no text raises.
abbrev agent_matches : String → Value → Result Bool
agent_matches needle (str candidate) = ok (candidate == needle || stem candidate == stem needle)
agent_matches needle v = raised (type_error "Path")

abbrev pub entry_matches : String → Value → Result Bool
entry_matches needle (dict f) = agent_matches needle (get_or "agent" (str "") (to_dict f))
entry_matches needle v = raised (attribute_error "get")

unfoldable pub first_match : String → List Value → Result (Option Value)
first_match needle [] = ok none
first_match needle (entry ∷ entries) = do
  matches ← entry_matches needle entry
  let rest = first_match needle entries
  if matches then ok (some entry) else rest

unfoldable pub get_entry : String → Dict Value → Result (Option Value)
unfolding first_match strip
get_entry agent registry = do entries ← registry_entries registry; first_match (strip agent) entries

-- The name by which entries are sorted.
abbrev agent_of : Value → String
agent_of (dict f) = elim (as_str (get_or "agent" (str "") (to_dict f))) [ none ↦ "" | some s ↦ s ]
agent_of v = ""

abbrev by_agent : Value → Value → Bool
by_agent a b = text_leb (agent_of a) (agent_of b)

unfoldable pub list_entries : Dict Value → Result (List Value)
list_entries registry = do entries ← registry_entries registry; ok (sort_by by_agent entries)

-- `any(t.get("task_ref") == task_ref for t in tasks)`
unfoldable pub has_task : String → List Value → Result Bool
has_task task_ref [] = ok false
has_task task_ref (dict f ∷ tasks) =
    let rest = has_task task_ref tasks in
    if value_eq (get_or_null "task_ref" (to_dict f)) (str task_ref) then ok true else rest
has_task task_ref (t ∷ tasks) = raised (attribute_error "get")

abbrev of_suite : Option String → Dict Value → Bool
of_suite none entry = true
of_suite (some suite) entry = suite == "" || value_eq (get_or_null "suite" entry) (str suite)

abbrev of_task : Option String → Dict Value → Result Bool
of_task none entry = ok true
of_task (some task_ref) entry =
    if task_ref == ""
    then ok true
    else (do tasks ← entries_of (get_or "tasks" (list nil) entry); has_task task_ref tasks)

abbrev asked : Option String → Option String → Dict Value → Result Bool
asked suite task_ref entry = if of_suite suite entry then of_task task_ref entry else ok false

unfoldable pub yielded : Option String → Option String → List Value → Result (List Value)
unfolding has_task
yielded suite task_ref [] = ok []
yielded suite task_ref (dict f ∷ entries) = do
  keep ← asked suite task_ref (to_dict f)
  rest ← yielded suite task_ref entries
  ok (if keep then dict f ∷ rest else rest)
yielded suite task_ref (v ∷ entries) = raised (attribute_error "get")

-- All that `iter_entries` yields.
unfoldable pub iter_entries : Option String → Option String → Dict Value → Result (List Value)
unfolding list_entries yielded
iter_entries suite task_ref registry = do
  entries ← list_entries registry
  yielded suite task_ref entries

-- `get_registry_metadata`
unfoldable pub get_registry_metadata : Dict Value → Dict Value
get_registry_metadata [] = []
get_registry_metadata ((k, v) ∷ registry) =
    let rest = get_registry_metadata registry in if k == "entries" then rest else (k, v) ∷ rest

-- `json.load` of the registry's file, for the calls that need a dict.
abbrev pub load_registry : Library → String → Result (Dict Value)
load_registry lib text = elim (lib.load text) [
  | none ↦ raised (value_error "invalid JSON")
  | some v ↦ elim (as_dict v) [ none ↦ raised (attribute_error "items") | some d ↦ ok d ]
]

-- `stamp_registry`, from a key, if there is one, to the new text of the file.
unfoldable pub stamp_registry :
    Library → Tools → Option PrivateKey → String → String → Result String
unfolding sign_registry update
stamp_registry lib tools none now file = raised (runtime_error "No signing key available.")
stamp_registry lib tools (some key) now file = do
  registry ← load_registry lib file
  ok (lib.dump_indented (obj (update (sign_registry tools key now registry) registry)) <> "\n")
