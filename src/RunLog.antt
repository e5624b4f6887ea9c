-- ===== src/RunLog.antt =====
-- The log of runs: agent_bench/runner/runlog.py. A file of the log is named after the run's id, and
-- stands here under that id with the time of its last change. A log has no symbolic links.
pub mod Kept
pub mod Listed
pub mod Newest
use tracecore.Prelude.{
  ℕ, ◌+◌, String, Bool, true, false, not, ◌&&◌, ◌||◌, Option, none, some, List, [], ◌∷◌, ◌==◌, eqb,
  leb, map, if◌then◌else◌, code,
}
use tracecore.Prelude.Int.{ℤ, pos, leb_ℤ}
use tracecore.Prelude.Dict.{Dict, get, put}
use tracecore.Prelude.Sort.{sort_by}
use tracecore.Prelude.Text.{empty, ◌◃◌, starts_with}
use tracecore.Value.{Value, str, dict, obj, to_dict, truthy, to_text, is_null, get_or_null}
use tracecore.Value.Equality.{value_eq}
use tracecore.Exc.{Result, ok, raised, ◌>>=◌, value_error, file_not_found, attribute_error}
use tracecore.Files.{Library}

pub record File : Type 0 where
  pub changed_at : ℕ
  pub text : String

abbrev pub RunLog : Type 0
RunLog = Dict File

-- `[A-Za-z0-9._-]`
abbrev pub id_char : ℕ → Bool
id_char n =
    leb 65 n && leb n 90
    || leb 97 n && leb n 122
    || leb 48 n && leb n 57
    || eqb n b'.'
    || eqb n b'_'
    || eqb n b'-'

-- `_RUN_ID_PATTERN.match(s)`. Its `$` also stands before a line feed at the end.
unfoldable pub matches_id : String → Bool
matches_id empty = false
matches_id (c ◃ s) = id_char (code c) && (s == "" || s == "\n" || matches_id s)

-- `_validate_run_id`. The characters that the pattern takes are no separators.
unfoldable pub validate_run_id : String → Result String
unfolding matches_id starts_with
validate_run_id run_id =
    if not (matches_id run_id)
    then raised (value_error "invalid run_id format")
    else if starts_with run_id "."
    then raised (value_error "run_id must not contain path separators or start with '.'")
    else ok run_id

-- What `iter_runs` and `list_runs` are asked for.
pub record Filters : Type 0 where
  pub agent : Option String
  pub task_ref : Option String
  pub failure_type : Option String

-- A filter that is missing or empty takes every run.
abbrev field_kept : Option String → String → Dict Value → Bool
field_kept none key run = true
field_kept (some s) key run = s == "" || value_eq (get_or_null key run) (str s)

abbrev outcome_kept : Option String → Dict Value → Bool
outcome_kept none run = true
outcome_kept (some s) run =
    if s == "success"
    then is_null (get_or_null "failure_type" run)
    else value_eq (get_or_null "failure_type" run) (str s)

abbrev pub kept : Filters → Dict Value → Bool
kept f run =
    field_kept f.agent "agent" run
    && field_kept f.task_ref "task_ref" run
    && outcome_kept f.failure_type run

abbrev is_asked : Option String → Bool
is_asked none = false
is_asked (some s) = not (s == "")

abbrev is_some : Option String → Bool
is_some none = false
is_some (some s) = true

-- Some test reads a field of the run.
abbrev pub reads_fields : Filters → Bool
reads_fields f = is_asked f.agent || is_asked f.task_ref || is_some f.failure_type

-- The tests of the loop in `iter_runs`. What is no object has no `get`.
abbrev pub keeps : Filters → Value → Result Bool
keeps f (dict fields) = ok (kept f (to_dict fields))
keeps f v = if reads_fields f then raised (attribute_error "get") else ok true

-- Newest first.
abbrev pub newer : File → File → Bool
newer a b = leb b.changed_at a.changed_at

abbrev pub files_of : RunLog → List File
files_of [] = []
files_of ((name, file) ∷ log) = file ∷ files_of log

abbrev pub newest_first : RunLog → List File
newest_first log = sort_by newer (files_of log)

abbrev pub keep_if : Bool → Value → List Value → List Value
keep_if true v vs = v ∷ vs
keep_if false v vs = vs

module _ (lib : Library) where
  abbrev pub write_run : ℕ → Dict Value → RunLog → String → RunLog
  write_run now result log run_id =
      put run_id (record { changed_at = now; text = lib.dump_indented (obj result) }) log

  -- `persist_run`, with Python's text of an id that is no text.
  unfoldable pub persist_run : (Value → String) → ℕ → Dict Value → RunLog → Result RunLog
  persist_run text_of now result log =
      let run_id = get_or_null "run_id" result in
      if not (truthy run_id)
      then raised (value_error "run result missing run_id; cannot persist")
      else (do name ← validate_run_id (to_text text_of run_id); ok (write_run now result log name))

  -- `json.load` of a file.
  abbrev pub load_text : String → Result Value
  load_text text = elim (lib.load text) [
    | none ↦ raised (value_error "invalid JSON")
    | some v ↦ ok v
  ]

  abbrev pub load_file : Option File → Result Value
  load_file none = raised (file_not_found "run")
  load_file (some file) = load_text file.text

  unfoldable pub load_run : String → RunLog → Result Value
  load_run run_id log = do name ← validate_run_id run_id; load_file (get name log)

  -- All that the iterator of `iter_runs` yields.
  unfoldable pub iterated : Filters → List File → Result (List Value)
  iterated f [] = ok []
  iterated f (file ∷ files) = do
    v ← load_text file.text
    keep ← keeps f v
    vs ← iterated f files
    ok (keep_if keep v vs)

  unfoldable pub iter_runs : Filters → RunLog → Result (List Value)
  unfolding iterated
  iter_runs f log = iterated f (newest_first log)

  -- The loop of `list_runs` with as many runs in its list: the iterator is asked for no more files
  -- than are needed.
  unfoldable pub collected : Filters → ℤ → ℕ → List File → Result (List Value)
  collected f limit n [] = ok []
  collected f limit n (file ∷ files) = do
    v ← load_text file.text
    keep ← keeps f v
    let more = collected f limit (n + 1) files
    let next = collected f limit n files
    if keep
        then (if leb_ℤ limit (pos (n + 1)) then ok (v ∷ []) else do vs ← more; ok (v ∷ vs))
        else next

  unfoldable pub list_runs : Filters → ℤ → RunLog → Result (List Value)
  unfolding collected
  list_runs f limit log = collected f limit 0 (newest_first log)
