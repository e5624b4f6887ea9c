-- ===== src/Baseline/Buckets.antt =====
-- The rows of the summary against the runs that they are about.
use tracecore.Prelude.{
  ◌+◌, ◌≡◌, refl, sym, ◌∙◌, ap, subst, String, Option, none, some, List, [], ◌∷◌, length, filter,
  map, All, Bool-cases, inl, inr, arith, if◌then◌else◌,
}
use tracecore.Prelude.Int.{ℤ}
use tracecore.Prelude.Dict.{Dict}
use tracecore.Prelude.Sort.{insert_sorted, sort_by}
use tracecore.Value.{Value, get_or_null}
use tracecore.Exc.{ok, ok_inj, >>=-eq-ok}
use tracecore.Baseline.Summary.{
  Bucket, new_bucket, extract_metric, counted, add_steps, add_tools, add_last, completed_text,
  add_run, Key, Buckets, bucket_at, collect, rate_of, Row, row_of, earlier, summarize_runs,
}
use tracecore.Baseline.Keyed.{
  has_key, succeeded, IsKeyed, IsKeyed-bucket_at, add_runs, collect-bucket_at,
}

-- What a run leaves of the counts.
record IsTally (runs : List (Dict Value)) (b c : Bucket) : Type 0 where
  count : c.count ≡ b.count + length runs
  successes : c.successes ≡ b.successes + length (filter succeeded runs)

add_last-counts :
    (run : Dict Value) (o : Option String) (b : Bucket)
    → ((add_last run o b).count ≡ b.count) × ((add_last run o b).successes ≡ b.successes)
add_last-counts run none b = (refl, refl)
add_last-counts run (some t) b = ground arith

add_steps-counts :
    (o : Option ℤ) (b : Bucket)
    → ((add_steps o b).count ≡ b.count) × ((add_steps o b).successes ≡ b.successes)
add_steps-counts none b = (refl, refl)
add_steps-counts (some t) b = (refl, refl)

add_tools-counts :
    (o : Option ℤ) (b : Bucket)
    → ((add_tools o b).count ≡ b.count) × ((add_tools o b).successes ≡ b.successes)
add_tools-counts none b = (refl, refl)
add_tools-counts (some t) b = (refl, refl)

add_run-counts :
    (run : Dict Value) (b c : Bucket)
    → add_run run b ≡ ok c
    → (c.count ≡ b.count + 1)
      × (c.successes ≡ (if succeeded run then b.successes + 1 else b.successes))
unfolding add_run
add_run-counts run b c h =
    let (steps, p, h1) = >>=-eq-ok (extract_metric run "steps_used") _ h in
    let (tools, q, h2) = >>=-eq-ok (extract_metric run "tool_calls_used") _ h1 in
    let x = add_steps steps (counted run b) in
    let y = add_tools tools x in
    let l = add_last-counts run (completed_text (get_or_null "completed_at" run)) y in
    let t = add_tools-counts tools x in
    let s = add_steps-counts steps (counted run b) in
    (
      ap (λ w. w.count) (sym (ok_inj h2)) ∙ l.0 ∙ t.0 ∙ s.0,
      ap (λ w. w.successes) (sym (ok_inj h2)) ∙ l.1 ∙ t.1 ∙ s.1,
    )

add_runs-IsTally :
    (runs : List (Dict Value)) (b c : Bucket) → add_runs runs b ≡ ok c → IsTally runs b c
unfolding add_runs filter
add_runs-IsTally [] b c h =
    subst (IsTally [] b) (ok_inj h) (record { count = omega arith; successes = omega arith })
add_runs-IsTally (run ∷ runs) b c h =
    let (d, a, rest) = >>=-eq-ok (add_run run b) _ h in
    let n = add_run-counts run b d a in
    let ih = add_runs-IsTally runs d c rest in
    elim (Bool-cases (succeeded run)) [
      | inl s ↦
          let m : d.successes ≡ b.successes + 1 = n.1 ∙ rw s refl in
          record {
            count = omega (arith, n.0, ih.count);
            successes = rw s (omega (arith, m, ih.successes));
          }
      | inr s ↦
          let m : d.successes ≡ b.successes = n.1 ∙ rw s refl in
          record {
            count = omega (arith, n.0, ih.count);
            successes = rw s (omega (arith, m, ih.successes));
          }
    ]

-- The runs of an agent on a task.
abbrev pub runs_of : Key → List (Dict Value) → List (Dict Value)
runs_of k runs = filter (has_key k) runs

-- A row counts the runs of its agent on its task, and the successes among them.
pub record IsRow (runs : List (Dict Value)) (row : Row) : Type 0 where
  pub count : row.runs ≡ length (runs_of (row.agent, row.task_ref) runs)
  pub rate :
      row.success_rate
      ≡ rate_of (length (filter succeeded (runs_of (row.agent, row.task_ref) runs))) row.runs

bucket_at-IsRow :
    (runs : List (Dict Value)) (bs : Buckets) (k : Key) (b : Bucket)
    → collect runs [] ≡ ok bs
    → bucket_at k bs ≡ b
    → IsRow runs (row_of (k, b))
unfolding bucket_at IsKeyed
bucket_at-IsRow runs bs (a, t) b h e =
    let made = (collect-bucket_at (a, t) runs [] bs tt h).0 in
    let tally = add_runs-IsTally (filter (has_key (a, t)) runs) new_bucket b (rw e at made) in
    let passed : b.successes ≡ length (filter succeeded (runs_of (a, t) runs)) =
      omega (arith, tally.successes) in
    record { count = omega (arith, tally.count); rate = ap (λ n. rate_of n b.count) passed }

All-sort_by : (P : Key × Bucket → Type 0) (bs : Buckets) → All P bs → All P (sort_by earlier bs)
unfolding sort_by insert_sorted
All-sort_by P [] h = tt
All-sort_by P (e ∷ bs) h = inserted e (sort_by earlier bs) (h.0) (All-sort_by P bs (h.1))
  where
    inserted :
        (e : Key × Bucket) (cs : Buckets) → P e → All P cs → All P (insert_sorted earlier e cs)
    inserted e [] p q = (p, tt)
    inserted e (c ∷ cs) p q = elim (Bool-cases (earlier e c)) [
      | inl s ↦ rw s (p, q)
      | inr s ↦ rw s (q.0, inserted e cs p (q.1))
    ]

All-row_of :
    (runs : List (Dict Value)) (bs cs : Buckets)
    → collect runs [] ≡ ok bs
    → All (λ e. bucket_at (e.0) bs ≡ e.1) cs
    → All (IsRow runs) (map row_of cs)
All-row_of runs bs [] h a = tt
All-row_of runs bs ((k, b) ∷ cs) h a =
    (bucket_at-IsRow runs bs k b h (a.0), All-row_of runs bs cs h (a.1))

-- Each row of the summary counts exactly the runs of its agent on its task, and its rate of success is
-- the number of those that succeeded over that count.
pub summarize_runs-IsRow :
    (runs : List (Dict Value)) (rows : List Row)
    → summarize_runs runs ≡ ok rows
    → All (IsRow runs) rows
unfolding summarize_runs IsKeyed
summarize_runs-IsRow runs rows h =
    let (bs, c, e) = >>=-eq-ok (collect runs []) _ h in
    let keyed = (collect-bucket_at ("", "") runs [] bs tt c).1 in
    subst (All (IsRow runs)) (ok_inj e)
      (All-row_of runs bs (sort_by earlier bs) c (All-sort_by _ bs (IsKeyed-bucket_at bs keyed)))
