-- ===== src/Session/Latest.antt =====
-- The run that the session points to, in the log of runs.
use tracecore.Prelude.{
  ℕ, String, ◌≡◌, refl, sym, ◌∙◌, ap, true, false, Option, some, ◌==◌, eq_refl, Bool-cases, inl,
  inr,
}
use tracecore.Prelude.Dict.{Dict}
use tracecore.Value.{Value, null, bool, int, str, list, dict, obj, truthy, get_or_null}
use tracecore.Exc.{ok, ok_inj, ok-ne-raised, >>=-eq-ok}
use tracecore.Files.{Library}
use tracecore.RunLog.{RunLog, persist_run, load_run}
use tracecore.RunLog.Kept.{load_run-persist_run}
use tracecore.Session.{
  SessionPointer, payload, run_id_of, unfailed, existing_of, save_session, update_after_run,
  latest_run_id, preferred,
}
use tracecore.Session.History.{
  last_some, id_of, success_of, run_ended, call, nothing, Happens-fields, latest-existing,
}

-- An id of a run is a text, and not an empty one.
run_id_of-str : (v : Value) (s : String) → run_id_of v ≡ ok s → (v ≡ str s) × ((s == "") ≡ false)
run_id_of-str (str t) s h = elim (Bool-cases (t == "")) [
  | inl e ↦ absurd (ok-ne-raised (sym (rw (run_id_of, e) at h)))
  | inr e ↦ let q : t ≡ s = ok_inj (rw (run_id_of, e) at h) in (ap str q, rw (← q) e)
]
run_id_of-str null s h = cc
run_id_of-str (bool b) s h = cc
run_id_of-str (int n) s h = cc
run_id_of-str (list vs) s h = cc
run_id_of-str (dict f) s h = cc

-- After a run was persisted and the session was told of it, the session's latest run has an id under
-- which the log gives that run, and so has its latest success if the run has no type of failure;
-- where what the two calls wrote reads back.
pub load_run-latest_run_id :
    (lib pointers : Library) (text_of : Value → String) (changed : ℕ) (now : String)
    (result : Dict Value) (log after : RunLog) (file : Option String) (p : SessionPointer)
    → persist_run lib text_of changed result log ≡ ok after
    → update_after_run pointers now result file ≡ ok (p, save_session pointers now p)
    → lib.load (lib.dump_indented (obj result)) ≡ some (obj result)
    → pointers.load (pointers.dump_indented (payload now p)) ≡ some (payload now p)
    → (run_id : String) × (latest_run_id pointers false (save_session pointers now p) ≡ str run_id)
      × (unfailed result ≡ true
          → latest_run_id pointers true (save_session pointers now p) ≡ str run_id)
      × (load_run lib run_id after ≡ ok (obj result))
unfolding update_after_run truthy
load_run-latest_run_id lib pointers text_of changed now result log after file p h u reads reads_p =
    let (run_id, i, e) = >>=-eq-ok (run_id_of (get_or_null "run_id" result)) _ u in
    let (is_text, filled) = run_id_of-str (get_or_null "run_id" result) run_id i in
    let left = save_session pointers now p in
    let (r, s, b) =
      Happens-fields pointers
        (call {file = file} {event = run_ended now result} now u reads_p nothing) in
    let latest : (existing_of pointers left).latest_run_id ≡ str run_id =
      r ∙ rw (last_some, id_of, i) refl in
    (
      run_id,
      latest-existing pointers false left ∙ latest,
      λ good.
          let success : (existing_of pointers left).latest_success_run_id ≡ str run_id =
            s ∙ rw (last_some, success_of, good, id_of, i) refl in
          latest-existing pointers true left ∙ rw (preferred, success, truthy, filled) refl,
      load_run-persist_run lib text_of changed result log after h reads run_id
          ∙ rw (is_text, eq_refl run_id) refl,
    )
