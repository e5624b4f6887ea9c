-- ===== src/Tests/Sessions.antt =====
-- A run in the log and in the session.
use tracecore.Prelude.{
  ◌≡◌, ◌≢◌, ◌↔◌, refl, String, Bool, true, false, Option, none, some, List, [], ◌∷◌, ◌==◌,
  if◌then◌else◌, arith,
}
use tracecore.Prelude.Int.{negsuc}
use tracecore.Prelude.Dict.{Dict, get, put}
use tracecore.Value.{Value, str, obj, get_or_null, to_dict, truthy, or_else}
use tracecore.Value.Equality.{value_eq}
use tracecore.Exc.{ok}
use tracecore.Files.{Library}
use tracecore.RunLog.{RunLog, Filters, persist_run, load_run, iter_runs, list_runs, validate_run_id}
use tracecore.RunLog.Kept.{load_run-persist_run}
use tracecore.RunLog.Listed.{list_runs-take}
use tracecore.Session.{
  SessionPointer, empty_pointer, payload, after_run, after_bundle, unfailed, existing_of,
  save_session, latest_run_id, update_after_run, update_after_bundle,
}
use tracecore.Session.History.{
  Event, run_ended, bundle_written, Happens, nothing, call, Happens-latest,
}
use tracecore.Session.Latest.{load_run-latest_run_id}

abbrev run : Dict Value
run = ("run_id", str "r-1") ∷ ("agent", str "a") ∷ []

-- A line feed at the end of an id is let through.
validate_run_id-line_feed : validate_run_id "r\n" ≡ ok "r\n"
unfolding validate_run_id
validate_run_id-line_feed = refl

abbrev first : SessionPointer
first = after_run "t1" run "r-1" empty_pointer

abbrev second : SessionPointer
second = after_bundle "t2" "b" (record first { updated_at = str "t1" })

-- A library for this run and these pointers.
abbrev lib : Library
lib = record {
  dump = λ v. "";
  dump_indented = λ v.
      if value_eq v (obj run)
      then "run"
      else if value_eq v (payload "t1" first)
      then "first"
      else "second";
  load = λ t.
      if t == "run"
      then some (obj run)
      else if t == "first"
      then some (payload "t1" first)
      else some (payload "t2" second);
  sha256 = λ t. t;
}

abbrev text_of : Value → String
text_of v = "?"

abbrev log : RunLog
log = ("r-0", record { changed_at = 3; text = "run" }) ∷ []

abbrev after : RunLog
after =
    ("r-0", record { changed_at = 3; text = "run" })
    ∷ ("r-1", record { changed_at = 5; text = "run" })
    ∷ []

persisted : persist_run lib text_of 5 run log ≡ ok after
unfolding persist_run truthy get_or_null get validate_run_id put value_eq
persisted = refl

run_reads : lib.load (lib.dump_indented (obj run)) ≡ some (obj run)
unfolding value_eq
run_reads = refl

load_run-persist_run_example : load_run lib "r-1" after ≡ ok (obj run)
unfolding get_or_null get
load_run-persist_run_example =
    load_run-persist_run lib text_of 5 run log after persisted run_reads "r-1"

abbrev of_agent : Filters
of_agent = record { agent = some "a"; task_ref = none; failure_type = some "success" }

both_kept : iter_runs lib of_agent after ≡ ok (obj run ∷ obj run ∷ [])
unfolding iter_runs tracecore.Prelude.Sort.sort_by value_eq get_or_null get to_dict
both_kept = refl

-- A limit below zero still gives a run.
list_runs-take_example : list_runs lib of_agent (negsuc 4) after ≡ ok (obj run ∷ [])
list_runs-take_example =
    list_runs-take lib of_agent (negsuc 4) after (obj run ∷ obj run ∷ []) both_kept

abbrev happened : List Event
happened = run_ended "t1" run ∷ bundle_written "t2" "b" ∷ []

happens : Happens lib happened none (save_session lib "t2" second)
unfolding update_after_run update_after_bundle value_eq get_or_null get truthy to_dict
happens = call {p = first} "t1" refl refl (call {p = second} "t2" refl refl nothing)

Happens-latest_example :
    (latest_run_id lib false (save_session lib "t2" second) ≡ str "r-1")
    × (latest_run_id lib true (save_session lib "t2" second) ≡ or_else (str "r-1") (str "r-1"))
    × ((existing_of lib (save_session lib "t2" second)).latest_bundle_dir ≡ str "b")
unfolding get_or_null get
Happens-latest_example = Happens-latest lib happens

load_run-latest_run_id_example :
    (run_id : String) × (latest_run_id lib false (save_session lib "t1" first) ≡ str run_id)
    × (unfailed run ≡ true → latest_run_id lib true (save_session lib "t1" first) ≡ str run_id)
    × (load_run lib run_id after ≡ ok (obj run))
unfolding update_after_run value_eq get_or_null get truthy
load_run-latest_run_id_example =
    load_run-latest_run_id lib lib text_of 5 "t1" run log after none first persisted refl run_reads
      refl
