-- ===== src/Session/History.antt =====
-- What the session points to after a series of runs and bundles.
use tracecore.Prelude.{
  String, ◌≡◌, refl, ◌∙◌, ap, Bool, true, false, Option, none, some, List, [], ◌∷◌, if◌then◌else◌,
  Bool-cases, Option-cases, subst, inl, inr,
}
use tracecore.Prelude.Dict.{Dict, get}
use tracecore.Value.{Value, null, str, to_dict, or_else, truthy, get_or_null}
use tracecore.Exc.{Result, ok, raised, ok_inj, >>=-eq-ok}
use tracecore.Files.{Library}
use tracecore.Session.{
  SessionPointer, empty_pointer, payload, run_id_of, unfailed, after_run, after_bundle,
  load_session, existing_of, save_session, update_after_run, update_after_bundle, latest_run_id,
  preferred,
}

-- A call for a run that ended, or for a bundle that was written, with the time of the call.
pub data Event : Type 0 where
  run_ended : String → Dict Value → Event
  bundle_written : String → String → Event

-- The file that a call leaves.
abbrev pub handle : Library → Event → Option String → Result (SessionPointer × Option String)
handle lib (run_ended now result) file = update_after_run lib now result file
handle lib (bundle_written now bundle_dir) file = ok (update_after_bundle lib now bundle_dir file)

-- The calls one after the other, each of which returns and leaves a file that reads back.
pub data Happens (lib : Library) : List Event → Option String → Option String → Type 0 where
  nothing : {file : Option String} → Happens lib [] file file
  call :
      {file last : Option String} {event : Event} {events : List Event} {p : SessionPointer}
      (now : String)
      → handle lib event file ≡ ok (p, save_session lib now p)
      → lib.load (lib.dump_indented (payload now p)) ≡ some (payload now p)
      → Happens lib events (save_session lib now p) last
      → Happens lib (event ∷ events) file last

-- The last value that the events give, if one gives any.
abbrev pub last_some : (Event → Option Value) → List Event → Option Value
last_some g [] = none
last_some g (e ∷ es) = elim (last_some g es) [ some v ↦ some v | none ↦ g e ]

abbrev pub from : Option Value → Value → Value
from none old = old
from (some v) old = v

-- The id of a run that ended; only of one without a type of failure; and the place of a bundle.
abbrev pub id_of : Event → Option Value
id_of (run_ended now result) = elim (run_id_of (get_or_null "run_id" result)) [
  | ok s ↦ some (str s)
  | raised e ↦ none
]
id_of (bundle_written now bundle_dir) = none

abbrev pub success_of : Event → Option Value
success_of (run_ended now result) = if unfailed result then id_of (run_ended now result) else none
success_of (bundle_written now bundle_dir) = none

abbrev pub bundle_of : Event → Option Value
bundle_of (run_ended now result) = none
bundle_of (bundle_written now bundle_dir) = some (str bundle_dir)

-- What a call makes of a pointer, in the fields that name runs and bundles.
record IsNext (event : Event) (old new : SessionPointer) : Type 0 where
  run : new.latest_run_id ≡ from (id_of event) old.latest_run_id
  success : new.latest_success_run_id ≡ from (success_of event) old.latest_success_run_id
  bundle : new.latest_bundle_dir ≡ from (bundle_of event) old.latest_bundle_dir

after_run-IsNext :
    (now : String) (result : Dict Value) (run_id : String) (old : SessionPointer)
    → run_id_of (get_or_null "run_id" result) ≡ ok run_id
    → IsNext (run_ended now result) old (after_run now result run_id old)
after_run-IsNext now result run_id old h = record {
  run = rw (id_of, h) refl;
  success = elim (Bool-cases (unfailed result)) [
    | inl e ↦ rw (success_of, e, id_of, h) refl
    | inr e ↦ rw (success_of, e) refl
  ];
  bundle = refl;
}

module _ (lib : Library) where
  handle-IsNext :
      (event : Event) (file left : Option String) (p : SessionPointer)
      → handle lib event file ≡ ok (p, left)
      → IsNext event (existing_of lib file) p
  unfolding update_after_run update_after_bundle
  handle-IsNext (run_ended now result) file left p h =
      let old = existing_of lib file in
      let (run_id, i, e) = >>=-eq-ok (run_id_of (get_or_null "run_id" result)) _ h in
      let q : after_run now result run_id old ≡ p = ap (λ x. x.0) (ok_inj e) in
      subst (IsNext (run_ended now result) old) q (after_run-IsNext now result run_id old i)
  handle-IsNext (bundle_written now bundle_dir) file left p h =
      let old = existing_of lib file in
      let q : after_bundle now bundle_dir old ≡ p = ap (λ x. x.0) (ok_inj h) in
      subst (IsNext (bundle_written now bundle_dir) old) q
        (record { run = refl; success = refl; bundle = refl })

  -- A file that reads back holds the pointer that was saved, but for the time.
  existing-saved :
      (now : String) (p : SessionPointer)
      → lib.load (lib.dump_indented (payload now p)) ≡ some (payload now p)
      → let q = existing_of lib (save_session lib now p) in
        (q.latest_run_id ≡ p.latest_run_id)
        × (q.latest_success_run_id ≡ p.latest_success_run_id)
        × (q.latest_bundle_dir ≡ p.latest_bundle_dir)
  unfolding to_dict get_or_null get
  existing-saved now p h = rw (existing_of, load_session, h) (refl, refl, refl)

  from-last :
      (g : Event → Option Value) (e : Event) (es : List Event) (old : Value)
      → from (last_some g es) (from (g e) old) ≡ from (last_some g (e ∷ es)) old
  from-last g e es old = elim (Option-cases (last_some g es)) [
    | inl n ↦ rw n refl
    | inr (v, s) ↦ rw s refl
  ]

  -- The fields of the pointer after the calls.
  pub Happens-fields :
      {es : List Event} {file last : Option String}
      → Happens lib es file last
      → let old = existing_of lib file in
        let new = existing_of lib last in
        (new.latest_run_id ≡ from (last_some id_of es) old.latest_run_id)
        × (new.latest_success_run_id ≡ from (last_some success_of es) old.latest_success_run_id)
        × (new.latest_bundle_dir ≡ from (last_some bundle_of es) old.latest_bundle_dir)
  Happens-fields nothing = (refl, refl, refl)
  Happens-fields (call {file} {last} {event = e} {events = es} {p} now h reads rest) =
      let step = handle-IsNext e file (save_session lib now p) p h in
      let (r, s, b) = existing-saved now p reads in
      let (r', s', b') = Happens-fields rest in
      (
        r' ∙ ap (from (last_some id_of es)) (r ∙ step.run) ∙ from-last id_of e es _,
        s' ∙ ap (from (last_some success_of es)) (s ∙ step.success) ∙ from-last success_of e es _,
        b' ∙ ap (from (last_some bundle_of es)) (b ∙ step.bundle) ∙ from-last bundle_of e es _,
      )

  -- The pointer with nothing in it stands for a missing file.
  pub latest-existing :
      (prefer : Bool) (file : Option String)
      → latest_run_id lib prefer file ≡ preferred lib prefer (existing_of lib file)
  unfolding latest_run_id
  latest-existing prefer file = elim (Option-cases (load_session lib file)) [
    | inl n ↦ rw (latest_run_id, existing_of, n) (nothing_preferred prefer)
    | inr (p, e) ↦ rw (latest_run_id, existing_of, e) refl
  ]
    where
      nothing_preferred : (prefer : Bool) → null ≡ preferred lib prefer empty_pointer
      nothing_preferred true = unfold truthy in refl
      nothing_preferred false = refl

  -- After any series of runs and bundles that began without a session file, where each call
  -- returned and left a file that reads back: the latest run is the last run that ended; the latest
  -- run with a preference for success is the last one without a type of failure, or else the last
  -- one; and the latest bundle is the last that was written.
  pub Happens-latest :
      {es : List Event} {last : Option String}
      → Happens lib es none last
      → (latest_run_id lib false last ≡ from (last_some id_of es) null)
        × (latest_run_id lib true last
            ≡ or_else (from (last_some success_of es) null) (from (last_some id_of es) null))
        × ((existing_of lib last).latest_bundle_dir ≡ from (last_some bundle_of es) null)
  Happens-latest {es} {last} h =
      let (r, s, b) = Happens-fields h in
      (rw (latest-existing false last, r) refl, rw (latest-existing true last, r, s) refl, b)
