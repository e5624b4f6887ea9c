-- ===== src/Tasks/Chain/Task/Acted.antt =====
-- The actions of the chain task keep what the trace tells of the environment.
use tracecore.Prelude.{
  String, ◌≡◌, refl, ◌∙◌, ap, Bool, true, false, Option, some, List, ◌==◌, if◌then◌else◌,
  Option-cases, inl, inr, [], ◌∷◌, ◌++◌, eq_iff, Any, Any-last,
}
use tracecore.Prelude.Int.{ℤ, pos}
use tracecore.Prelude.Dict.{Dict, get}
use tracecore.Value.{Value, null, bool, int, str, obj}
use tracecore.Exc.{
  sandbox_violation, value_error, key_error, runtime_error, type_error, attribute_error,
  file_not_found, Result, ok, raised, Result-cases, ok_inj,
}
use tracecore.Env.Guard.{
  Guarded, Frame, ensure_allowed, ensure_fs_allowed, get_hidden_state, read_file, file_op,
  record_audit,
}
use tracecore.Tasks.Chain.{confirmed_reply}
use tracecore.Runner.Action.{action_type, action_args}
use tracecore.Runner.Model.{Entry}
use tracecore.Tasks.Chain.Task.Played.{IsCommit, IsStore, IsPlayed, longer-IsPlayed}
use tracecore.Tasks.Chain.Task.{Hidden, template_key, payload_key, readme_path, output_key}
use tracecore.Tasks.Chain.Task.Actions
use tracecore.Tasks.Chain.Task.Kept.{
  Keeps, bound-Keeps, call_api-Keeps, wait_for-Keeps, set_output-Keeps,
}

read_file_env :
    (stack : List Frame) (path : String) (g : Guarded Hidden)
    → (read_file stack path g).1.env ≡ g.env
unfolding read_file file_op record_audit
read_file_env stack path g = elim (Result-cases (ensure_allowed stack g)) [
  | inr (x, e) ↦ rw (read_file, file_op, e) refl
  | inl (u, e) ↦ elim (Result-cases (ensure_fs_allowed path g)) [
    | inr (x, f) ↦ rw (read_file, file_op, e, f) refl
    | inl (n, f) ↦ rw (read_file, file_op, e, f) refl
  ]
]

module _ (stack : List Frame) (load : String → Option Value) (seed : ℤ) (es : List Entry)
    (result : Value) where
  abbrev Kept : Result Value × Guarded Hidden → Type 0
  Kept = Keeps stack load seed es result

  read_reply-Keeps :
      (r : Result String × Guarded Hidden)
      → IsPlayed seed es (r.1).env
      → Kept (Actions.read_reply r)
  read_reply-Keeps (ok t, g) p = λ q. p
  read_reply-Keeps (raised (key_error t), g) p = λ q. p
  read_reply-Keeps (raised (sandbox_violation v), g) p = λ q. p
  read_reply-Keeps (raised (value_error t), g) p = λ q. p
  read_reply-Keeps (raised (runtime_error t), g) p = λ q. p
  read_reply-Keeps (raised (type_error t), g) p = λ q. p
  read_reply-Keeps (raised (attribute_error t), g) p = λ q. p
  read_reply-Keeps (raised (file_not_found t), g) p = λ q. p

  if-Keeps :
      (b : Bool) (r q : Result Value × Guarded Hidden)
      → (b ≡ true → Kept r)
      → Kept q
      → Kept (if b then r else q)
  if-Keeps true r q p h = p refl
  if-Keeps false r q p h = h

  argument-get :
      (key : String) (args : Dict Value) (v : Value)
      → Actions.argument key args ≡ ok v
      → get key args ≡ some v
  argument-get key args v h = elim (Option-cases (get key args)) [
    | inl n ↦ let bad : raised (type_error key) ≡ ok v = rw (Actions.argument, n) at h in cc
    | inr (w, e) ↦ e ∙ ap some (ok_inj (rw (Actions.argument, e) at h))
  ]

  -- What an entry of this action with this result says.
  module _ (kind : String) (args : Dict Value)
      (commit : kind ≡ "call_api"
        → get "endpoint" args ≡ some (str "/handshake_commit")
        → result ≡ obj confirmed_reply
        → Any IsCommit es)
      (store : (v : Value)
        → kind ≡ "set_output"
        → get "key" args ≡ some (str output_key)
        → get "value" args ≡ some v
        → result ≡ obj (("ok", bool true) ∷ [])
        → Any (IsStore v) es) where
    perform-Keeps :
        (g : Guarded Hidden)
        → IsPlayed seed es g.env
        → Kept (Actions.perform stack load kind args g)
    perform-Keeps g p =
        if-Keeps (kind == "call_api") _ _
          (λ k.
            bound-Keeps stack load seed es result (Actions.argument "endpoint" args) g _ p
              λ endpoint e.
                call_api-Keeps stack load seed es result endpoint
                  (Actions.argument_or "payload" null args) g
                  (λ h.
                    commit ((eq_iff kind "call_api").0 k)
                      (argument-get "endpoint" args endpoint e ∙ ap some h))
                  p)
          (if-Keeps (kind == "get_handshake_template") _ _
            (λ k.
              bound-Keeps stack load seed es result (get_hidden_state stack template_key g) g _ p
                λ h e q. p)
            (if-Keeps (kind == "get_required_payload") _ _
              (λ k.
                bound-Keeps stack load seed es result (get_hidden_state stack payload_key g) g _ p
                  λ h e q. p)
              (if-Keeps (kind == "inspect_status") _ _
                (λ k.
                  bound-Keeps stack load seed es result (Actions.get_service stack load g) g _ p
                    λ s e q. p)
                (if-Keeps (kind == "read_instructions") _ _
                  (λ k.
                    read_reply-Keeps (read_file stack readme_path g)
                      (rw (read_file_env stack readme_path g) p))
                  (if-Keeps (kind == "set_output") _ _
                    (λ k.
                      bound-Keeps stack load seed es result (Actions.argument "key" args) g _ p
                        λ key e.
                          bound-Keeps stack load seed es result (Actions.argument "value" args) g _
                            p
                            λ v f.
                              set_output-Keeps stack load seed es result key v g
                                (λ h.
                                  store v ((eq_iff kind "set_output").0 k)
                                    (argument-get "key" args key e ∙ ap some h)
                                    (argument-get "value" args v f))
                                p)
                    (wait_for-Keeps stack load seed es result
                      (Actions.argument_or "steps" (int (pos 1)) args) g p))))))

    performed-Keeps :
        (g : Guarded Hidden) → IsPlayed seed es g.env → Kept (Actions.act stack load kind args g)
    unfolding Actions.act
    performed-Keeps g p = elim (Option-cases (Actions.parameters stack load kind)) [
      | inl n ↦ rw (Actions.act, n) (λ q. p)
      | inr (params, s) ↦
          rw (Actions.act, s)
            (if-Keeps (Actions.knows params args) _ _ (λ k. perform-Keeps g p) (λ q. p))
    ]

-- Whatever action is called, with whatever arguments, and returns: the trace with its entry tells of
-- the environment that it leaves.
pub act-Keeps :
    (stack : List Frame) (load : String → Option Value) (seed : ℤ) (es : List Entry) (e : Entry)
    (g : Guarded Hidden)
    → IsPlayed seed es g.env
    → (Actions.act stack load (action_type e.action) (action_args e.action) g).0 ≡ ok e.result
    → IsPlayed seed
        (es ++ e ∷ [])
        ((Actions.act stack load (action_type e.action) (action_args e.action) g).1).env
act-Keeps stack load seed es e g p =
    performed-Keeps stack load seed (es ++ e ∷ []) e.result (action_type e.action)
      (action_args e.action)
      (λ k a r. Any-last IsCommit es e (record { kind = k; endpoint = a; reply = r }))
      (λ v k a b r. Any-last (IsStore v) es e (record { kind = k; key = a; value = b; reply = r }))
      g (longer-IsPlayed seed es (e ∷ []) g.env p)
