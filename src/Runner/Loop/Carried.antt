-- ===== src/Runner/Loop/Carried.antt =====
-- A property of a trace and a task's environment that the task's actions and its validator keep,
-- through the loop.
use tracecore.Prelude.{
  ℕ, zero, suc, String, ◌≡◌, refl, false≢true, true, Option, none, some, List, [], ◌∷◌, ◌++◌, ◌&&◌,
  ◌==◌, length, Bool-cases, Option-cases, inl, inr,
}
use tracecore.Prelude.Int.{ℤ, pos, leb_ℤ, ltb_ℤ}
use tracecore.Prelude.Dict.{Dict}
use tracecore.Value.{Value, null, bool, int, str, list, dict, to_dict, truthy, get_or_null}
use tracecore.Exc.{
  Exc, Result, ok, raised, sandbox_violation, value_error, key_error, runtime_error, type_error,
  attribute_error, file_not_found, Result-cases,
}
use tracecore.Budgets.{timed_out, consume_tool_call, consume_step}
use tracecore.Env.Path.{normalize_path}
use tracecore.Env.State.{Environment, mark_seen}
use tracecore.Env.Guard.{Guarded, Audit, begin_step, consume_audit}
use tracecore.Runner.Action.{validate_action, action_type, action_args}
use tracecore.Runner.Model.{
  Agent, Task, World, Entry, Outcome, Loop, Next, finish, crash, go_on, Exit, returned, crashed,
  out_of_fuel, Turn, listed_files, mark_listed,
}
use tracecore.Runner.Loop.{
  judged, judge, completed_entry, marked, acted, dispatch, decided, agent_raised, answered,
  observed_by, iteration, run_loop,
}

-- An action that returns keeps the property, with the entry that records it; the validator keeps
-- it; and it says nothing of the paths that were seen.
pub record IsCarried {H : Type 0} (task : Task H) (P : List Entry → Environment H → Type 0)
    : Type 0 where
  pub called :
      (es : List Entry) (e : Entry) (g : Guarded H)
      → P es g.env
      → (task.call (action_type e.action) (action_args e.action) g).0 ≡ ok e.result
      → P (es ++ e ∷ []) ((task.call (action_type e.action) (action_args e.action) g).1).env
  pub validated : (es : List Entry) (g : Guarded H) → P es g.env → P es ((task.validate g).1).env
  pub seen :
      (es : List Entry) (env : Environment H) (paths : List String)
      → P es env
      → P es (record env { seen_paths = paths })

-- The validator accepted an environment that has the property with this trace.
pub record IsApproved {H : Type 0} (task : Task H) (P : List Entry → Environment H → Type 0)
    (trace : List Entry) : Type 0 where
  pub before : Guarded H
  pub after : Guarded H
  pub validation : Dict Value
  pub asked : task.validate before ≡ (ok validation, after)
  pub approved : truthy (get_or_null "ok" validation) ≡ true
  pub carried : P trace before.env

module _ {H S : Type 0} (agent : Agent S) (task : Task H) (world : World)
    (max_steps max_tool_calls : ℤ) (P : List Entry → Environment H → Type 0)
    (carried : IsCarried task P) where
  -- A success was approved.
  abbrev pub Approves : Outcome → Type 0
  Approves o = o.success ≡ true → IsApproved task P o.action_trace

  abbrev Keeps : Next H S → Type 0
  Keeps (finish o) = Approves o
  Keeps (crash e) = Unit
  Keeps (go_on l) = P l.action_trace l.guarded.env

  judged-Keeps :
      (l : Loop H S) (before : Guarded H) (r : Result (Dict Value) × Guarded H)
      → task.validate before ≡ r
      → P l.action_trace before.env
      → P l.action_trace (r.1).env
      → Keeps (judged agent task world max_steps max_tool_calls l r)
  judged-Keeps l before (raised e, g) a p q = tt
  judged-Keeps l before (ok validation, g) a p q =
      elim (Bool-cases (truthy (get_or_null "ok" validation))) [
        | inl e ↦ rw e (λ h. record {
          before = before;
          after = g;
          validation = validation;
          asked = a;
          approved = e;
          carried = p;
        })
        | inr e ↦ elim (Bool-cases (truthy (get_or_null "terminal" validation))) [
          | inl t ↦ rw (e, t) (λ h. absurd (false≢true h))
          | inr t ↦ rw (e, t) q
        ]
      ]

  judge-Keeps :
      (l : Loop H S)
      → P l.action_trace l.guarded.env
      → Keeps (judge agent task world max_steps max_tool_calls l)
  unfolding judge
  judge-Keeps l p = elim (Bool-cases (ltb_ℤ l.budget.tool_calls_remaining (pos 0))) [
    | inl e ↦ rw e (λ h. absurd (false≢true h))
    | inr e ↦ rw e (
        judged-Keeps l l.guarded (task.validate l.guarded) refl p
          (carried.validated l.action_trace l.guarded p))
  ]

  mark_seen-carried :
      (es : List Entry) (paths : List String) (env : Environment H)
      → P es env
      → P es (mark_seen paths env).1
  unfolding mark_seen
  mark_seen-carried es [] env p = p
  mark_seen-carried es (path ∷ paths) env p = elim (Result-cases (normalize_path path)) [
    | inl (norm, e) ↦ rw (mark_seen, e) (mark_seen-carried es paths _ (carried.seen es env _ p))
    | inr (x, e) ↦ rw (mark_seen, e) p
  ]

  listed-carried :
      (es : List Entry) (kind : String) (result : Value) (g : Guarded H)
      → P es g.env
      → P es ((mark_listed kind result g).1).env
  unfolding mark_listed
  listed-carried es kind (dict f) g p =
      elim (Bool-cases (kind == "list_dir" && truthy (get_or_null "ok" (to_dict f)))) [
        | inr e ↦ rw (mark_listed, e) p
        | inl e ↦ elim (Option-cases (listed_files (to_dict f))) [
          | inl n ↦ rw (mark_listed, e, n) p
          | inr (paths, s) ↦ rw (mark_listed, e, s) (mark_seen-carried es paths g.env p)
        ]
      ]
  listed-carried es kind null g p = p
  listed-carried es kind (bool b) g p = p
  listed-carried es kind (int n) g p = p
  listed-carried es kind (str t) g p = p
  listed-carried es kind (list vs) g p = p

  marked-Keeps :
      (l : Loop H S) (turn : Turn) (result : Value) (audit : List Audit)
      (r : Result (Unit {0}) × Guarded H)
      → P
          (l.action_trace
            ++ completed_entry agent task world max_steps max_tool_calls l turn result audit ∷ [])
          (r.1).env
      → Keeps (marked agent task world max_steps max_tool_calls l turn result audit r)
  marked-Keeps l turn result audit (raised e, g) p = tt
  marked-Keeps l turn result audit (ok _, g) p = judge-Keeps _ p

  -- The loop once the tool call is charged.
  abbrev charge : Loop H S → Loop H S
  charge l = record l { budget = consume_tool_call l.budget }

  -- The trace with the entry of an action that returned.
  abbrev trace_with : Loop H S → Turn → List Audit → Value → List Entry
  trace_with l turn audit result =
      l.action_trace
      ++ completed_entry agent task world max_steps max_tool_calls (charge l) turn result audit ∷ []

  acted-Keeps :
      (l : Loop H S) (turn : Turn) (audit : List Audit) (r : Result Value)
      → ((result : Value) → r ≡ ok result → P (trace_with l turn audit result) l.guarded.env)
      → Keeps (acted agent task world max_steps max_tool_calls l turn audit r)
  acted-Keeps l turn audit (ok result) p =
      marked-Keeps (charge l) turn result audit
        (mark_listed (action_type turn.action) result l.guarded)
        (listed-carried (trace_with l turn audit result) (action_type turn.action) result l.guarded
          (p result refl))
  acted-Keeps l turn audit (raised (sandbox_violation v)) p = λ h. absurd (false≢true h)
  acted-Keeps l turn audit (raised (value_error t)) p = λ h. absurd (false≢true h)
  acted-Keeps l turn audit (raised (key_error t)) p = λ h. absurd (false≢true h)
  acted-Keeps l turn audit (raised (runtime_error t)) p = λ h. absurd (false≢true h)
  acted-Keeps l turn audit (raised (type_error t)) p = λ h. absurd (false≢true h)
  acted-Keeps l turn audit (raised (attribute_error t)) p = λ h. absurd (false≢true h)
  acted-Keeps l turn audit (raised (file_not_found t)) p = λ h. absurd (false≢true h)

  dispatch-Keeps :
      (l : Loop H S) (turn : Turn)
      → P l.action_trace l.guarded.env
      → Keeps (dispatch agent task world max_steps max_tool_calls l turn)
  unfolding dispatch begin_step consume_audit
  dispatch-Keeps l turn p = elim (Bool-cases (leb_ℤ l.budget.tool_calls_remaining (pos 0))) [
    | inl e ↦ rw e (λ h. absurd (false≢true h))
    | inr e ↦
        let g = begin_step turn.step l.guarded in
        let kind = action_type turn.action in
        let args = action_args turn.action in
        let (audit, g') = consume_audit (task.call kind args g).1 in
        rw e (
          acted-Keeps (record l { guarded = g' }) turn audit (task.call kind args g).0
            λ result e.
              carried.called l.action_trace
                (completed_entry agent task world max_steps max_tool_calls (charge l) turn result
                  audit)
                g p e)
  ]

  decided-Keeps :
      (l : Loop H S) (turn : Turn) (refusal : Option String)
      → P l.action_trace l.guarded.env
      → Keeps (decided agent task world max_steps max_tool_calls l turn refusal)
  decided-Keeps l turn none p = dispatch-Keeps l turn p
  decided-Keeps l turn (some reason) p = λ h. absurd (false≢true h)

  agent_raised-Keeps :
      (l : Loop H S) (e : Exc) → Keeps (agent_raised agent task world max_steps max_tool_calls l e)
  agent_raised-Keeps l (sandbox_violation v) = λ h. absurd (false≢true h)
  agent_raised-Keeps l (value_error t) = tt
  agent_raised-Keeps l (key_error t) = tt
  agent_raised-Keeps l (runtime_error t) = tt
  agent_raised-Keeps l (type_error t) = tt
  agent_raised-Keeps l (attribute_error t) = tt
  agent_raised-Keeps l (file_not_found t) = tt

  answered-Keeps :
      (l : Loop H S) (step : ℤ) (observed : Value) (r : Result Value × S)
      → P l.action_trace l.guarded.env
      → Keeps (answered agent task world max_steps max_tool_calls l step observed r)
  answered-Keeps l step observed (raised e, s) p = agent_raised-Keeps l e
  answered-Keeps l step observed (ok action, s) p =
      decided-Keeps (record l { budget = consume_step l.budget; agent = s })
        (record { step = step; observation = observed; action = action })
        (validate_action action task.schema) p

  observed_by-Keeps :
      (l : Loop H S) (step : ℤ) (observed : Value) (r : Result (Unit {0}) × S)
      → P l.action_trace l.guarded.env
      → Keeps (observed_by agent task world max_steps max_tool_calls l step observed r)
  observed_by-Keeps l step observed (raised e, s) p = agent_raised-Keeps l e
  observed_by-Keeps l step observed (ok _, s) p = answered-Keeps l step observed (agent.act s) p

  iteration-Keeps :
      (l : Loop H S)
      → P l.action_trace l.guarded.env
      → Keeps (iteration agent task world max_steps max_tool_calls l)
  unfolding iteration
  iteration-Keeps l p =
      elim (Bool-cases (timed_out (world.clock (length l.action_trace)) l.budget)) [
        | inl t ↦ rw t (λ h. absurd (false≢true h))
        | inr t ↦ elim (Bool-cases (leb_ℤ l.budget.steps_remaining (pos 0))) [
          | inl e ↦ rw (t, e) (λ h. absurd (false≢true h))
          | inr e ↦ rw (t, e) (observed_by-Keeps l _ _ _ p)
        ]
      ]

  -- A success of the loop was approved in an environment with the property.
  abbrev pub Ends : Exit → Type 0
  Ends (returned o) = Approves o
  Ends (crashed e) = Unit
  Ends out_of_fuel = Unit

  turn-Ends :
      (fuel : ℕ) (next : Next H S)
      → ((l : Loop H S)
          → P l.action_trace l.guarded.env
          → Ends (run_loop agent task world max_steps max_tool_calls fuel l))
      → Keeps next
      → Ends (elim next [
        | finish o ↦ returned o
        | crash e ↦ crashed e
        | go_on l ↦ run_loop agent task world max_steps max_tool_calls fuel l
      ])
  turn-Ends fuel (finish o) rest k = k
  turn-Ends fuel (crash e) rest k = tt
  turn-Ends fuel (go_on l) rest k = rest l k

  pub run_loop-Ends :
      (fuel : ℕ) (l : Loop H S)
      → P l.action_trace l.guarded.env
      → Ends (run_loop agent task world max_steps max_tool_calls fuel l)
  unfolding run_loop
  run_loop-Ends zero l p = tt
  run_loop-Ends (suc fuel) l p =
      turn-Ends fuel (iteration agent task world max_steps max_tool_calls l) (run_loop-Ends fuel)
        (iteration-Keeps l p)
