-- ===== src/Tasks/Chain/Task/SetUp.antt =====
-- What the setup of rate_limited_chain leaves in the environment.
use tracecore.Prelude.{
  String, ◌≡◌, refl, ap, ◌∙◌, true, false, some, List, [], ◌∷◌, ◌==◌, if◌then◌else◌, inl, inr,
}
use tracecore.Prelude.Int.{ℤ}
use tracecore.Prelude.Dict.{get, put, get-put, get-put_self}
use tracecore.Exc.{Result, ok, raised, Result-cases}
use tracecore.Env.Path.{normalize_path}
use tracecore.Env.State
use tracecore.Env.State.{Environment}
use tracecore.Env.Guard.{
  Guarded, Frame, ensure_allowed, ensure_fs_allowed, set_hidden_state, write_file, mark_seen,
  file_op, record_audit,
}
use tracecore.Tasks.Chain.Task.{
  Hidden, service, payload, text, flag, service_key, payload_key, secret_key, template_key,
  readme_path, made, required_of, secret_of, template_of, instructions, ◌then◌, setup,
}

-- What is needed after a call is needed only if it returned.
then-Holds :
    (Q R : Environment Hidden → Type 0) (r : Result (Unit {0}) × Guarded Hidden)
    (f : Guarded Hidden → Result (Unit {0}) × Guarded Hidden)
    → (r.0 ≡ ok tt → Q (r.1).env)
    → ((g : Guarded Hidden) → Q g.env → (f g).0 ≡ ok tt → R ((f g).1).env)
    → (r then f).0 ≡ ok tt
    → R ((r then f).1).env
then-Holds Q R (raised e, g) f q k h = cc
then-Holds Q R (ok tt, g) f q k h = k g (q refl) h

-- The same hidden state and the same output.
abbrev Same : Environment Hidden → Environment Hidden → Type 0
Same e f = (f.hidden_state ≡ e.hidden_state) × (f.agent_output ≡ e.agent_output)

mark_seen-Same :
    (paths : List String) (env : Environment Hidden) → Same env (State.mark_seen paths env).1
unfolding State.mark_seen
mark_seen-Same [] env = (refl, refl)
mark_seen-Same (p ∷ paths) env = elim (Result-cases (normalize_path p)) [
  | inl (norm, e) ↦ rw (State.mark_seen, e) (mark_seen-Same paths _)
  | inr (x, e) ↦ rw (State.mark_seen, e) (refl, refl)
]

module _ (stack : List Frame) where
  set_hidden_put :
      (key : String) (h : Hidden) (g : Guarded Hidden)
      → (set_hidden_state stack key h g).0 ≡ ok tt
      → ((set_hidden_state stack key h g).1.env.hidden_state ≡ put key h g.env.hidden_state)
        × ((set_hidden_state stack key h g).1.env.agent_output ≡ g.env.agent_output)
  unfolding set_hidden_state State.set_hidden_state
  set_hidden_put key h g e = elim (Result-cases (ensure_allowed stack g)) [
    | inl (u, a) ↦ rw (set_hidden_state, a) (refl, refl)
    | inr (x, a) ↦ let bad : raised x ≡ ok tt = rw (set_hidden_state, a) at e in cc
  ]

  write_file-Same :
      (path content : String) (g : Guarded Hidden)
      → Same g.env (write_file stack path content g).1.env
  unfolding write_file file_op record_audit State.write_file
  write_file-Same path content g = elim (Result-cases (ensure_allowed stack g)) [
    | inr (x, e) ↦ rw (write_file, file_op, e) (refl, refl)
    | inl (u, e) ↦ elim (Result-cases (ensure_fs_allowed path g)) [
      | inr (x, f) ↦ rw (write_file, file_op, e, f) (refl, refl)
      | inl (n, f) ↦ elim (Result-cases (normalize_path path)) [
        | inl (m, q) ↦ rw (write_file, file_op, e, f, q) (refl, refl)
        | inr (x, q) ↦ rw (write_file, file_op, e, f, q) (refl, refl)
      ]
    ]
  ]

  guarded_mark-Same :
      (paths : List String) (g : Guarded Hidden) → Same g.env (mark_seen stack paths g).1.env
  unfolding mark_seen
  guarded_mark-Same paths g = elim (Result-cases (ensure_allowed stack g)) [
    | inl (u, e) ↦ rw (mark_seen, e) (mark_seen-Same paths g.env)
    | inr (x, e) ↦ rw (mark_seen, e) (refl, refl)
  ]

  module _ (seed : ℤ) where
    -- The service of the seed, and no output.
    abbrev HasService : Environment Hidden → Type 0
    HasService env =
        (get service_key env.hidden_state ≡ some (service (made seed))) × (env.agent_output ≡ [])

    -- The secret of the seed as well.
    abbrev pub IsFresh : Environment Hidden → Type 0
    IsFresh env =
        (get secret_key env.hidden_state ≡ some (text (secret_of seed)))
        × (get service_key env.hidden_state ≡ some (service (made seed)))
        × (env.agent_output ≡ [])

    Same-IsFresh : (e f : Environment Hidden) → Same e f → IsFresh e → IsFresh f
    Same-IsFresh e f q p =
        (ap (get secret_key) (q.0) ∙ p.0, ap (get service_key) (q.0) ∙ p.1, q.1 ∙ p.2)

    -- A key of the hidden state that is neither the service's nor the secret's.
    put-IsFresh :
        (key : String) (h : Hidden) (g : Guarded Hidden)
        → (key == service_key) ≡ false
        → (key == secret_key) ≡ false
        → IsFresh g.env
        → (set_hidden_state stack key h g).0 ≡ ok tt
        → IsFresh (set_hidden_state stack key h g).1.env
    put-IsFresh key h g s t p e =
        let (q, o) = set_hidden_put key h g e in
        (rw (q, get-put, t) (p.0), rw (q, get-put, s) (p.1), o ∙ p.2)

    pub setup-IsFresh :
        (g : Guarded Hidden)
        → g.env.agent_output ≡ []
        → (setup stack seed g).0 ≡ ok tt
        → IsFresh (setup stack seed g).1.env
    unfolding setup
    setup-IsFresh g none_yet =
        then-Holds HasService IsFresh _ _
          (λ e.
            let (q, o) = set_hidden_put service_key (service (made seed)) g e in
            (
              rw q (get-put_self service_key (service (made seed)) g.env.hidden_state),
              o ∙ none_yet,
            ))
          λ g1 p1.
            then-Holds HasService IsFresh _ _
              (λ e.
                let (q, o) = set_hidden_put payload_key (payload (required_of seed)) g1 e in
                (rw (q, get-put) (p1.0), o ∙ p1.1))
              λ g2 p2.
                then-Holds IsFresh IsFresh _ _
                  (λ e.
                    let (q, o) = set_hidden_put secret_key (text (secret_of seed)) g2 e in
                    (rw (q, get-put_self) refl, rw (q, get-put) (p2.0), o ∙ p2.1))
                  λ g3 p3.
                    then-Holds IsFresh IsFresh _ _
                      (put-IsFresh template_key (text (template_of seed)) g3 refl refl p3)
                      λ g4 p4.
                        then-Holds IsFresh IsFresh (write_file stack readme_path instructions g4) _
                          (λ e.
                            Same-IsFresh g4.env (write_file stack readme_path instructions g4).1.env
                              (write_file-Same readme_path instructions g4) p4)
                          λ g5 p5.
                            then-Holds IsFresh IsFresh (mark_seen stack (readme_path ∷ []) g5) _
                              (λ e.
                                Same-IsFresh g5.env (mark_seen stack (readme_path ∷ []) g5).1.env
                                  (guarded_mark-Same (readme_path ∷ []) g5) p5)
                              λ g6 p6.
                                put-IsFresh "chain_task_initialized" (flag true) g6 refl refl p6
