-- ===== src/RunLog/Newest.antt =====
-- The run that was persisted last.
use tracecore.Prelude.{
  ℕ, ◌<◌, String, ◌≡◌, refl, true, false, none, some, List, [], ◌∷◌, arith, ◌==◌, Bool-cases, inl,
  inr, All,
}
use tracecore.Prelude.Int.{pos}
use tracecore.Prelude.Dict.{Dict, put}
use tracecore.Prelude.Sort.{sort_by, insert_sorted}
use tracecore.Value.{Value, obj, to_text, get_or_null}
use tracecore.Exc.{ok}
use tracecore.Files.{Library}
use tracecore.RunLog.{
  RunLog, File, Filters, newer, files_of, newest_first, load_text, persist_run, collected,
  list_runs,
}
use tracecore.RunLog.Kept.{persisted}

abbrev Older : File → File → Type 0
Older file other = other.changed_at < file.changed_at

insert-Older :
    (file other : File) (files : List File)
    → Older file other
    → All (Older file) files
    → All (Older file) (insert_sorted newer other files)
unfolding insert_sorted
insert-Older file other [] o h = (o, tt)
insert-Older file other (b ∷ files) o h = elim (Bool-cases (newer other b)) [
  | inl e ↦ rw e (o, h)
  | inr e ↦ rw e (h.0, insert-Older file other files o h.1)
]

sort-Older :
    (file : File) (files : List File)
    → All (Older file) files
    → All (Older file) (sort_by newer files)
unfolding sort_by
sort-Older file [] h = tt
sort-Older file (b ∷ files) h =
    insert-Older file b (sort_by newer files) h.0 (sort-Older file files h.1)

-- The newest file comes before older ones.
insert-newest :
    (file : File) (files : List File)
    → All (Older file) files
    → insert_sorted newer file files ≡ file ∷ files
unfolding insert_sorted
insert-newest file [] h = refl
insert-newest file (b ∷ files) h =
    let older = h.0 in let e : newer file b ≡ true = ground arith in rw e refl

insert-behind :
    (file other : File) (files : List File)
    → Older file other
    → insert_sorted newer other (file ∷ files) ≡ file ∷ insert_sorted newer other files
unfolding insert_sorted
insert-behind file other files o = let e : newer other file ≡ false = ground arith in rw e refl

newest_first-put :
    (name : String) (file : File) (log : RunLog)
    → All (λ e. Older file (e.1)) log
    → (rest : List File) × (newest_first (put name file log) ≡ file ∷ rest)
unfolding put sort_by
newest_first-put name file [] h = ([], unfold insert_sorted in refl)
newest_first-put name file ((j, w) ∷ log) h = elim (Bool-cases (j == name)) [
  | inl e ↦
      let older = sort-Older file (files_of log) (olders log h.1) in
      (sort_by newer (files_of log), rw e (insert-newest file (sort_by newer (files_of log)) older))
  | inr e ↦
      let (rest, q) = newest_first-put name file log h.1 in
      (insert_sorted newer w rest, rw (e, q) (insert-behind file w rest h.0))
]
  where
    olders : (log : RunLog) → All (λ e. Older file (e.1)) log → All (Older file) (files_of log)
    olders [] h = tt
    olders ((j, w) ∷ log) h = (h.0, olders log h.1)

-- No filters.
abbrev pub everything : Filters
everything = record { agent = none; task_ref = none; failure_type = none }

-- Right after a run was persisted, at a time later than the change of any file in the log,
-- `list_runs` with a limit of one gives that run, if what was written reads back and whatever else
-- the log holds.
pub list_runs-persist_run :
    (lib : Library) (text_of : Value → String) (now : ℕ) (result : Dict Value) (log after : RunLog)
    → persist_run lib text_of now result log ≡ ok after
    → All (λ e. e.1.changed_at < now) log
    → lib.load (lib.dump_indented (obj result)) ≡ some (obj result)
    → list_runs lib everything (pos 1) after ≡ ok (obj result ∷ [])
unfolding list_runs collected
list_runs-persist_run lib text_of now result log after h older reads =
    let (v, e) = persisted lib text_of now result log after h in
    let file : File = record { changed_at = now; text = lib.dump_indented (obj result) } in
    let (rest, q) =
      newest_first-put (to_text text_of (get_or_null "run_id" result)) file log older in
    rw (e, q, load_text, reads) refl
