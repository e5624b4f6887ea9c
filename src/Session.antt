-- ===== src/Session.antt =====
-- The pointer to the latest run: agent_bench/session.py. The session file is a text, or is not
-- there; the time of a call is an argument.
pub mod History
pub mod Latest
use tracecore.Prelude.{
  String, Bool, true, false, Option, none, some, List, [], ◌∷◌, ◌==◌, ◌&&◌, if◌then◌else◌,
}
use tracecore.Prelude.Dict.{Dict}
use tracecore.Value.{
  Value, null, bool, int, str, list, dict, obj, to_dict, truthy, or_else, is_null, get_or_null,
}
use tracecore.Exc.{Result, ok, raised, ◌>>=◌, value_error}
use tracecore.Files.{Library}

pub record SessionPointer : Type 0 where
  pub latest_run_id : Value
  pub latest_success_run_id : Value
  pub latest_bundle_dir : Value
  pub agent : Value
  pub task_ref : Value
  pub seed : Value
  pub updated_at : Value

abbrev pub empty_pointer : SessionPointer
empty_pointer = record {
  latest_run_id = null;
  latest_success_run_id = null;
  latest_bundle_dir = null;
  agent = null;
  task_ref = null;
  seed = null;
  updated_at = null;
}

abbrev pointer_of : Dict Value → SessionPointer
pointer_of payload = record {
  latest_run_id = get_or_null "latest_run_id" payload;
  latest_success_run_id = get_or_null "latest_success_run_id" payload;
  latest_bundle_dir = get_or_null "latest_bundle_dir" payload;
  agent = get_or_null "agent" payload;
  task_ref = get_or_null "task_ref" payload;
  seed = get_or_null "seed" payload;
  updated_at = get_or_null "updated_at" payload;
}

-- What `save_session` writes.
abbrev pub payload : String → SessionPointer → Value
payload now p = obj (
    ("latest_run_id", p.latest_run_id)
    ∷ ("latest_success_run_id", p.latest_success_run_id)
    ∷ ("latest_bundle_dir", p.latest_bundle_dir)
    ∷ ("agent", p.agent)
    ∷ ("task_ref", p.task_ref)
    ∷ ("seed", p.seed)
    ∷ ("updated_at", or_else p.updated_at (str now))
    ∷ [])

-- `isinstance(v, str)` and `isinstance(v, int)`, or else the old value. A boolean is an `int`.
abbrev text_or : Value → Value → Value
text_or (str s) old = str s
text_or v old = old

abbrev int_or : Value → Value → Value
int_or (int n) old = int n
int_or (bool b) old = bool b
int_or v old = old

-- The id of a run, a text that is not empty.
abbrev pub run_id_of : Value → Result String
run_id_of (str s) = if s == "" then raised (value_error "run result missing run_id") else ok s
run_id_of v = raised (value_error "run result missing run_id")

-- A run that has no type of failure.
abbrev pub unfailed : Dict Value → Bool
unfailed result = is_null (get_or_null "failure_type" result)

abbrev pub after_run : String → Dict Value → String → SessionPointer → SessionPointer
after_run now result run_id existing = record {
  latest_run_id = str run_id;
  latest_success_run_id = if unfailed result then str run_id else existing.latest_success_run_id;
  latest_bundle_dir = existing.latest_bundle_dir;
  agent = text_or (get_or_null "agent" result) existing.agent;
  task_ref = text_or (get_or_null "task_ref" result) existing.task_ref;
  seed = int_or (get_or_null "seed" result) existing.seed;
  updated_at = str now;
}

abbrev pub after_bundle : String → String → SessionPointer → SessionPointer
after_bundle now bundle_dir existing = record existing {
  latest_bundle_dir = str bundle_dir;
  updated_at = str now;
}

module _ (lib : Library) where
  abbrev loaded : Option Value → Option SessionPointer
  loaded (some (dict f)) = some (pointer_of (to_dict f))
  loaded v = none

  abbrev pub load_session : Option String → Option SessionPointer
  load_session none = none
  load_session (some text) = loaded (lib.load text)

  -- `load_session() or SessionPointer()`
  abbrev pub existing_of : Option String → SessionPointer
  existing_of file = elim (load_session file) [ none ↦ empty_pointer | some p ↦ p ]

  abbrev pub save_session : String → SessionPointer → Option String
  save_session now p = some (lib.dump_indented (payload now p))

  -- The pointer and the file that a call leaves.
  unfoldable pub update_after_run :
      String → Dict Value → Option String → Result (SessionPointer × Option String)
  update_after_run now result file = do
    run_id ← run_id_of (get_or_null "run_id" result)
    let updated = after_run now result run_id (existing_of file)
    ok (updated, save_session now updated)

  unfoldable pub update_after_bundle :
      String → String → Option String → SessionPointer × Option String
  update_after_bundle now bundle_dir file =
      let updated = after_bundle now bundle_dir (existing_of file) in
      (updated, save_session now updated)

  abbrev pub preferred : Bool → SessionPointer → Value
  preferred prefer_success p =
      if prefer_success && truthy p.latest_success_run_id
      then p.latest_success_run_id
      else p.latest_run_id

  unfoldable pub latest_run_id : Bool → Option String → Value
  latest_run_id prefer_success file = elim (load_session file) [
    | none ↦ null
    | some p ↦ preferred prefer_success p
  ]
