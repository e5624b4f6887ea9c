-- ===== src/Baseline/Same.antt =====
-- A run against itself.
use tracecore.Prelude.{
  ℕ, suc, ◌≡◌, refl, sym, ◌∙◌, ap, subst, String, Bool, true, false, Option, none, some, List, [],
  ◌∷◌, ◌==◌, filter, length, All, Bool-cases, inl, inr, arith, if◌then◌else◌,
}
use tracecore.Prelude.Int.{ℤ, pos, ◌-ℤ◌, -ℤ_parts, eq_of_parts}
use tracecore.Prelude.Dict.{Dict, get}
use tracecore.Value.{
  Value, null, bool, int, str, list, dict, Items, nil, cons, Fields, end, field, obj, of_dict,
  to_list, to_dict, truthy, get_or_null,
}
use tracecore.Value.Equality.{find, IsValue, AreValues, HasValues, value_eq_refl}
use tracecore.Exc.{Exc, ok, raised, ok_inj, ok-ne-raised, >>=-eq-ok, map_result}
use tracecore.Baseline.Audit.{keys_of, io_audit_diff}
use tracecore.Baseline.Delta.{delta_of_iff, IsWithin-refl}
use tracecore.Baseline.Diff.{
  normalize_trace_entry, entry_of, trace_entries, audit_of, same_entry, Steps, no_steps, add_diff,
  diff_steps, int_value, RunDiff, same_truth, diff_runs,
}

-- Nothing differs.
pub record IsSame (d : RunDiff) : Type 0 where
  pub agent : d.same_agent ≡ true
  pub task : d.same_task ≡ true
  pub success : d.same_success ≡ true
  pub failure_type : d.same_failure_type ≡ true
  pub termination_reason : d.same_termination_reason ≡ true
  pub summaries : d.run_a ≡ d.run_b
  pub steps_delta : d.steps_delta ≡ pos 0
  pub tool_calls_delta : d.tool_calls_delta ≡ pos 0
  pub steps : d.steps ≡ no_steps

-- A dict keeps its keys apart when some of its entries are left out.
find-filter :
    (p : String × Value → Bool) (k : String) (f : Fields)
    → find k f ≡ none
    → find k (of_dict (filter p (to_dict f))) ≡ none
unfolding to_dict filter
find-filter p k end h = refl
find-filter p k (field j v f) h = elim (Bool-cases (j == k)) [
  | inl e ↦ absurd (some-ne-none (rw e at h))
  | inr e ↦
      let rest = find-filter p k f (rw e at h) in
      elim (Bool-cases (p (j, v))) [ inl q ↦ rw (q, e) rest | inr q ↦ rw q rest ]
]
  where
    some-ne-none : {v : Value} → some v ≡ none → ⊥
    some-ne-none h = cc

HasValues-filter :
    (p : String × Value → Bool) (f : Fields)
    → HasValues f
    → HasValues (of_dict (filter p (to_dict f)))
unfolding to_dict filter IsValue
HasValues-filter p end h = tt
HasValues-filter p (field j v f) h = elim (Bool-cases (p (j, v))) [
  | inl q ↦ rw q (find-filter p j f (h.0), h.1, HasValues-filter p f (h.2))
  | inr q ↦ rw q (HasValues-filter p f (h.2))
]

get_or_null-IsValue :
    (k : String) (d : Dict Value) → HasValues (of_dict d) → IsValue (get_or_null k d)
unfolding get_or_null get IsValue
get_or_null-IsValue k [] h = tt
get_or_null-IsValue k ((j, v) ∷ d) h = elim (Bool-cases (j == k)) [
  | inl e ↦
      let here : get_or_null k ((j, v) ∷ d) ≡ v = rw (get_or_null, e) refl in
      subst IsValue (sym here) (h.1)
  | inr e ↦
      let later : get_or_null k ((j, v) ∷ d) ≡ get_or_null k d = rw (get_or_null, e) refl in
      subst IsValue (sym later) (get_or_null-IsValue k d (h.2))
]

-- An entry that was read from a well-formed trace.
IsEntry : Option (Dict Value) → Type 0
IsEntry o = same_entry (normalize_trace_entry o) (normalize_trace_entry o) ≡ true

entry_of-IsEntry : (v : Value) (o : Option (Dict Value)) → IsValue v → entry_of v ≡ ok o → IsEntry o
unfolding IsEntry normalize_trace_entry IsValue
entry_of-IsEntry null o w h = rw (← ok_inj h) refl
entry_of-IsEntry (dict f) o w h = rw (← ok_inj h) (value_eq_refl _ (HasValues-filter _ f w))
entry_of-IsEntry (bool b) o w h = cc
entry_of-IsEntry (int n) o w h = cc
entry_of-IsEntry (str s) o w h = cc
entry_of-IsEntry (list vs) o w h = cc

map_result-IsEntry :
    (vs : Items) (os : List (Option (Dict Value)))
    → AreValues vs
    → map_result entry_of (to_list vs) ≡ ok os
    → All IsEntry os
unfolding to_list map_result IsValue
map_result-IsEntry nil os w h = subst (All IsEntry) (ok_inj h) tt
map_result-IsEntry (cons v vs) os w h =
    let (o, a, h1) = >>=-eq-ok (entry_of v) _ h in
    let (rest, b, h2) = >>=-eq-ok (map_result entry_of (to_list vs)) _ h1 in
    subst (All IsEntry) (ok_inj h2)
      (entry_of-IsEntry v o (w.0) a, map_result-IsEntry vs rest (w.1) b)

unless :
    (b : Bool) (e : Exc) (os : List (Option (Dict Value)))
    → (if b then raised e else ok []) ≡ ok os
    → All IsEntry os
unless true e os h = absurd (ok-ne-raised (sym h))
unless false e os h = subst (All IsEntry) (ok_inj h) tt

trace_entries-IsEntry :
    (v : Value) (os : List (Option (Dict Value)))
    → IsValue v
    → trace_entries v ≡ ok os
    → All IsEntry os
unfolding IsValue truthy
trace_entries-IsEntry (list vs) os w h = map_result-IsEntry vs os w h
trace_entries-IsEntry null os w h = subst (All IsEntry) (ok_inj h) tt
trace_entries-IsEntry (bool b) os w h = unless (truthy (bool b)) _ os h
trace_entries-IsEntry (int n) os w h = unless (truthy (int n)) _ os h
trace_entries-IsEntry (str s) os w h = unless (truthy (str s)) _ os h
trace_entries-IsEntry (dict f) os w h = unless (truthy (dict f)) _ os h

io_audit_diff_self : (v : Value) (o : _) → io_audit_diff v v ≡ ok o → o ≡ none
unfolding io_audit_diff
io_audit_diff_self v o h =
    let (ks, a, h1) = >>=-eq-ok (keys_of v) _ h in
    let (js, b, h2) = >>=-eq-ok (keys_of v) _ h1 in
    let same : ks ≡ js = ok_inj (sym a ∙ b) in
    sym (ok_inj h2) ∙ rw same ((delta_of_iff js js).1 (IsWithin-refl js, IsWithin-refl js))

diff_steps_self :
    (step : ℕ) (os : List (Option (Dict Value))) (s : Steps)
    → All IsEntry os
    → diff_steps step os os ≡ ok s
    → s ≡ no_steps
unfolding diff_steps IsEntry
diff_steps_self step [] s w h = sym (ok_inj h)
diff_steps_self step (o ∷ os) s w h =
    let (t, a, h1) = >>=-eq-ok (diff_steps (suc step) os os) _ h in
    let (delta, b, h2) = >>=-eq-ok (io_audit_diff (audit_of o) (audit_of o)) _ h1 in
    let e = normalize_trace_entry o in
    sym (ok_inj h2)
    ∙ ap (λ x. add_diff step e e x t) (io_audit_diff_self (audit_of o) delta b)
    ∙ rw (w.0) (diff_steps_self (suc step) os t (w.1) a)

minus_self : (n : ℤ) → n -ℤ n ≡ pos 0
minus_self n = eq_of_parts (n -ℤ n) (pos 0) (omega (arith, -ℤ_parts n n))

same_truth_self : (b : Bool) → same_truth b b ≡ true
same_truth_self true = refl
same_truth_self false = refl

-- A run whose dicts hold each key once does not differ from itself: if `diff_runs` returns, it reports
-- the same agent, task, success and failure, no change of the counts, and no step diff.
pub diff_runs-IsSame :
    (run : Dict Value) (d : RunDiff) → IsValue (obj run) → diff_runs run run ≡ ok d → IsSame d
unfolding diff_runs IsValue
diff_runs-IsSame run d w h =
    let (as', a, h1) = >>=-eq-ok (trace_entries (get_or_null "action_trace" run)) _ h in
    let (bs, b, h2) = >>=-eq-ok (trace_entries (get_or_null "action_trace" run)) _ h1 in
    let (steps, c, h3) = >>=-eq-ok (diff_steps 1 as' bs) _ h2 in
    let (calls_b, e, h4) = >>=-eq-ok (int_value (get_or_null "tool_calls_used" run)) _ h3 in
    let (calls_a, f, h5) = >>=-eq-ok (int_value (get_or_null "tool_calls_used" run)) _ h4 in
    let traces : as' ≡ bs = ok_inj (sym a ∙ b) in
    let calls : calls_b ≡ calls_a = ok_inj (sym e ∙ f) in
    let entries =
      trace_entries-IsEntry (get_or_null "action_trace" run) as'
        (get_or_null-IsValue "action_trace" run w) a in
    let quiet : steps ≡ no_steps = diff_steps_self 1 as' steps entries (rw (← traces) at c) in
    let at_key = λ (k : String). value_eq_refl (get_or_null k run) (get_or_null-IsValue k run w) in
    subst IsSame (ok_inj h5) (record {
      agent = at_key "agent";
      task = at_key "task_ref";
      success = same_truth_self (truthy (get_or_null "success" run));
      failure_type = at_key "failure_type";
      termination_reason = at_key "termination_reason";
      summaries = refl;
      steps_delta = rw traces (minus_self (pos (length bs)));
      tool_calls_delta = rw calls (minus_self calls_a);
      steps = quiet;
    })
