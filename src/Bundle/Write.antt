-- ===== src/Bundle/Write.antt =====
-- `write_bundle`. What a call that raises leaves on the disk is not modelled.
use tracecore.Prelude.{ℕ, suc, String, none, some, List, [], ◌∷◌, if◌then◌else◌, length, map}
use tracecore.Prelude.Int.{pos}
use tracecore.Prelude.Dict.{Dict, get, put}
use tracecore.Prelude.Text.{empty, ◌◃◌, ◌<>◌}
use tracecore.Value.{
  Value, Fields, int, str, list, dict, nil, obj, to_list, to_dict, truthy, get_or_null, get_or,
}
use tracecore.Value.Equality.{size}
use tracecore.Exc.{Result, ok, raised, ◌>>=◌, map_result, value_error, type_error, attribute_error}
use tracecore.Files.{Library, Directory}

abbrev pub manifest_name : String
manifest_name = "manifest.json"

abbrev pub calls_name : String
calls_name = "tool_calls.jsonl"

abbrev pub validator_name : String
validator_name = "validator.json"

abbrev pub integrity_name : String
integrity_name = "integrity.sha256"

abbrev characters : String → ℕ
characters empty = 0
characters (c ◃ s) = suc (characters s)

-- `len(v)`
abbrev pub len : Value → Result ℕ
len (list vs) = ok (length (to_list vs))
len (str s) = ok (characters s)
len (dict f) = ok (size f)
len v = raised (type_error "len")

abbrev pub trace_of : Dict Value → Value
trace_of result = get_or "action_trace" (list nil) result

abbrev pub manifest_of : Dict Value → ℕ → Dict Value
manifest_of result entries =
    ("run_id", get_or_null "run_id" result)
    ∷ ("trace_id", get_or_null "trace_id" result)
    ∷ ("agent", get_or_null "agent" result)
    ∷ ("task_ref", get_or_null "task_ref" result)
    ∷ ("task_id", get_or_null "task_id" result)
    ∷ ("version", get_or_null "version" result)
    ∷ ("seed", get_or_null "seed" result)
    ∷ ("harness_version", get_or_null "harness_version" result)
    ∷ ("started_at", get_or_null "started_at" result)
    ∷ ("completed_at", get_or_null "completed_at" result)
    ∷ ("success", get_or_null "success" result)
    ∷ ("termination_reason", get_or_null "termination_reason" result)
    ∷ ("failure_type", get_or_null "failure_type" result)
    ∷ ("failure_reason", get_or_null "failure_reason" result)
    ∷ ("steps_used", get_or_null "steps_used" result)
    ∷ ("tool_calls_used", get_or_null "tool_calls_used" result)
    ∷ ("trace_entry_count", int (pos entries))
    ∷ ("sandbox", get_or_null "sandbox" result)
    ∷ []

-- `_write_manifest`, as the value that it writes.
unfoldable pub manifest : Dict Value → Result Value
manifest result = do entries ← len (trace_of result); ok (obj (manifest_of result entries))

abbrev pub call_row : Dict Value → Value
call_row entry = obj (
    ("step", get_or_null "step" entry)
    ∷ ("action_ts", get_or_null "action_ts" entry)
    ∷ ("action", get_or_null "action" entry)
    ∷ ("result", get_or_null "result" entry)
    ∷ ("io_audit", get_or "io_audit" (list nil) entry)
    ∷ ("budget_after_step", get_or_null "budget_after_step" entry)
    ∷ ("budget_delta", get_or_null "budget_delta" entry)
    ∷ [])

abbrev pub row_of : Value → Result Value
row_of (dict f) = ok (call_row (to_dict f))
row_of v = raised (attribute_error "get")

-- The entries that the loop goes over. The characters of a text and the keys of a dict are texts.
abbrev pub entries_of : Value → Result (List Value)
entries_of (list vs) = ok (to_list vs)
entries_of (str empty) = ok []
entries_of (str (c ◃ s)) = raised (attribute_error "get")
entries_of (dict Fields.end) = ok []
entries_of (dict (Fields.field k v f)) = raised (attribute_error "get")
entries_of v = raised (type_error "not iterable")

-- The rows of `_write_tool_calls`.
unfoldable pub rows : Dict Value → Result (List Value)
rows result = do entries ← entries_of (trace_of result); map_result row_of entries

-- Texts, with a line feed behind each.
unfoldable pub written_lines : List String → String
written_lines [] = empty
written_lines (t ∷ ts) = t <> "\n" <> written_lines ts

-- `_write_validator`, as the value that it writes.
abbrev pub validator_snapshot : Dict Value → Value
validator_snapshot result = obj (
    ("success", get_or_null "success" result)
    ∷ ("termination_reason", get_or_null "termination_reason" result)
    ∷ ("failure_type", get_or_null "failure_type" result)
    ∷ ("failure_reason", get_or_null "failure_reason" result)
    ∷ ("metrics", get_or "metrics" (obj []) result)
    ∷ [])

abbrev pub folder_at : String → Dict Directory → Directory
folder_at run_id bundles = elim (get run_id bundles) [ none ↦ [] | some d ↦ d ]

-- The id under which the bundle is filed. Path arithmetic with what is no text raises.
abbrev pub named : Value → Result String
named v =
    if truthy v
    then elim v [ str s ↦ ok s | _ ↦ raised (type_error "run_id") ]
    else raised (value_error "run result missing run_id; cannot write bundle")

module _ (lib : Library) where
  -- A line of `_write_integrity`.
  abbrev pub listing_line : String × String → String
  listing_line (name, text) = lib.sha256 text <> "  " <> name

  -- What `_write_integrity` writes for files with these texts.
  abbrev pub listing : List (String × String) → String
  listing files = written_lines (map listing_line files)

  -- The three files that the listing covers.
  abbrev pub contents : Value → List Value → Value → List (String × String)
  contents m calls snapshot =
      (manifest_name, lib.dump_indented m)
      ∷ (calls_name, written_lines (map lib.dump calls))
      ∷ (validator_name, lib.dump_indented snapshot)
      ∷ []

  abbrev pub put_all : List (String × String) → Directory → Directory
  put_all [] d = d
  put_all ((name, text) ∷ files) d = put_all files (put name text d)

  abbrev pub filled : List (String × String) → Directory → Directory
  filled files d = put integrity_name (listing files) (put_all files d)

  unfoldable pub write_bundle : Dict Value → Dict Directory → Result (Dict Directory)
  unfolding manifest rows
  write_bundle result bundles = do
    run_id ← named (get_or_null "run_id" result)
    m ← manifest result
    calls ← rows result
    ok (
        put run_id
          (filled (contents m calls (validator_snapshot result)) (folder_at run_id bundles))
          bundles)
