-- ===== src/Env/Guard/Trail.antt =====
-- The audit of a step: what `begin_step` and `consume_audit` enclose.
use mathlib.Core.List.{append-nil, append_assoc}
use tracecore.Prelude.{String, ◌≡◌, refl, sym, ap, ◌∙◌, inl, inr, some, List, [], ◌∷◌, ◌++◌}
use tracecore.Prelude.Int.{ℤ}
use tracecore.Exc.{Result, ok, raised, Result-cases}
use tracecore.Env.Network
use tracecore.Env.State
use tracecore.Env.State.{Environment}
use tracecore.Env.Guard
use tracecore.Env.Guard.{
  Guarded, Frame, Audit, fs, net, ensure_allowed, ensure_fs_allowed, record_audit, file_op,
  append_audit, require_network, begin_step, consume_audit,
}

-- The accesses that an action can make.
pub data Access : Type 0 where
  list_dir read_file exists request : String → Access
  write_file : String → String → Access

abbrev on_ok : {A B : Type 0} → (A → List B) → Result A → List B
on_ok f (ok a) = f a
on_ok f (raised e) = []

module _ {H : Type 0} where
  -- The entry that the policy of the guard grants a path.
  abbrev file_entry : Guarded H → String → String → List Audit
  file_entry g op path = on_ok (λ norm. fs op norm ∷ []) (ensure_fs_allowed path g)

  granted : Guarded H → Access → List Audit
  granted g (list_dir path) = file_entry g "list_dir" path
  granted g (read_file path) = file_entry g "read_file" path
  granted g (exists path) = file_entry g "exists" path
  granted g (write_file path content) = file_entry g "write_file" path
  granted g (request host) = on_ok (λ n. net n ∷ []) (Network.check g.network_guard host)

module _ {H : Type 0} (stack : List Frame) where
  -- The state that an access leaves, whether it returns or raises.
  unfoldable pub perform : Access → Guarded H → Guarded H
  perform (list_dir path) g = (Guard.list_dir stack path g).1
  perform (read_file path) g = (Guard.read_file stack path g).1
  perform (exists path) g = (Guard.exists stack path g).1
  perform (request host) g = (Guard.require_network stack host g).1
  perform (write_file path content) g = (Guard.write_file stack path content g).1

  unfoldable pub perform_all : List Access → Guarded H → Guarded H
  unfolding perform
  perform_all [] g = g
  perform_all (a ∷ as') g = perform_all as' (perform a g)

  -- The entries that the accesses should leave: one for each that the policy grants, in order.
  pub trail : Guarded H → List Access → List Audit
  unfolding granted
  trail g [] = []
  trail g (a ∷ as') = on_ok (λ _. granted g a) (ensure_allowed stack g) ++ trail g as'

record SamePolicy {H : Type 0} (g h : Guarded H) : Type 0 where
  prefixes : g.allowed_prefixes ≡ h.allowed_prefixes
  roots : g.filesystem_roots ≡ h.filesystem_roots
  hosts : g.network_guard ≡ h.network_guard
  callers : g.allow_test_callers ≡ h.allow_test_callers

-- One access during a step: the policy stays, and the entries grow by those given.
record Leaves {H : Type 0} (g : Guarded H) (es : List Audit) (h : Guarded H) : Type 0 where
  policy : SamePolicy h g
  step : h.audit_step ≡ g.audit_step
  entries : h.audit_entries ≡ g.audit_entries ++ es

module _ {H : Type 0} (n : ℤ) (g : Guarded H) (during : g.audit_step ≡ some n) where
  Leaves-none : Leaves g [] g
  Leaves-none = record {
    policy = record { prefixes = refl; roots = refl; hosts = refl; callers = refl };
    step = refl;
    entries = sym (append-nil _);
  }

  Leaves-record_audit : (e : Audit) → Leaves g (e ∷ []) (record_audit e g)
  unfolding record_audit
  Leaves-record_audit e = record {
    policy = record { prefixes = refl; roots = refl; hosts = refl; callers = refl };
    step = refl;
    entries = ap (λ step. append_audit step g.audit_entries e) during;
  }

  -- A file operation whose rest leaves the policy and the entries alone.
  Leaves-file_op :
      {A : Type 0} (op path : String) (stack : List Frame) (rest : Guarded H → Result A × Guarded H)
      → ((es : List Audit) (h : Guarded H) → Leaves g es h → Leaves g es (rest h).1)
      → Leaves g
          (on_ok (λ _. file_entry g op path) (ensure_allowed stack g))
          (file_op op stack path g rest).1
  unfolding file_op
  Leaves-file_op op path stack rest keeps = elim (Result-cases (ensure_allowed stack g)) [
    | inr (x, e) ↦ rw (e, file_op, on_ok) Leaves-none
    | inl (u, e) ↦ elim (Result-cases (ensure_fs_allowed path g)) [
      | inr (x, f) ↦ rw (e, f, file_op) Leaves-none
      | inl (norm, f) ↦
          rw (e, f, file_op)
            (keeps (fs op norm ∷ []) (record_audit (fs op norm) g) (Leaves-record_audit _))
    ]
  ]

module _ {H : Type 0} (n : ℤ) (g : Guarded H) (during : g.audit_step ≡ some n) where
  Leaves-request :
      (host : String) (stack : List Frame)
      → Leaves g
          (on_ok
            (λ _. on_ok (λ h. net h ∷ []) (Network.check g.network_guard host))
            (ensure_allowed stack g))
          (require_network stack host g).1
  unfolding require_network
  Leaves-request host stack = elim (Result-cases (ensure_allowed stack g)) [
    | inr (x, e) ↦ rw (e, require_network) (Leaves-none n g during)
    | inl (u, e) ↦ elim (Result-cases (Network.check g.network_guard host)) [
      | inr (x, f) ↦ rw (e, f, require_network) (Leaves-none n g during)
      | inl (norm, f) ↦ rw (e, f, require_network) (Leaves-record_audit n g during (net norm))
    ]
  ]

written-Leaves :
    {H : Type 0} (g h : Guarded H) (es : List Audit) (r : Result (Environment H))
    → Leaves g es h
    → Leaves g es (Guard.written h r).1
written-Leaves g h es (ok env) l = record {
  policy = record {
    prefixes = l.policy.prefixes;
    roots = l.policy.roots;
    hosts = l.policy.hosts;
    callers = l.policy.callers;
  };
  step = l.step;
  entries = l.entries;
}
written-Leaves g h es (raised e) l = l

module _ {H : Type 0} (stack : List Frame) where
  -- The entries that the guard's policy grants an access by this caller.
  abbrev grants : Guarded H → Access → List Audit
  grants g a = on_ok (λ _. granted g a) (ensure_allowed stack g)

module _ {H : Type 0} (stack : List Frame) (n : ℤ) (g : Guarded H)
    (during : g.audit_step ≡ some n) where
  perform-Leaves : (a : Access) → Leaves g (grants stack g a) (perform stack a g)
  unfolding perform granted Guard.list_dir Guard.read_file Guard.exists Guard.write_file
      Guard.require_network
  perform-Leaves (list_dir path) =
      Leaves-file_op n g during "list_dir" path stack (λ h. (State.list_dir path h.env, h))
        (λ es h l. l)
  perform-Leaves (read_file path) =
      Leaves-file_op n g during "read_file" path stack (λ h. (State.read_file path h.env, h))
        (λ es h l. l)
  perform-Leaves (exists path) =
      Leaves-file_op n g during "exists" path stack (λ h. (State.exists path h.env, h))
        (λ es h l. l)
  perform-Leaves (write_file path content) =
      Leaves-file_op n g during "write_file" path stack
        (λ h. Guard.written h (State.write_file path content h.env))
        (λ es h l. written-Leaves g h es (State.write_file path content h.env) l)
  perform-Leaves (request host) = Leaves-request n g during host stack

-- The trail depends on the policy alone.
ensure_allowed-SamePolicy :
    {H : Type 0} (stack : List Frame) (g h : Guarded H)
    → SamePolicy h g
    → ensure_allowed stack h ≡ ensure_allowed stack g
unfolding ensure_allowed
ensure_allowed-SamePolicy stack g h s = simp (s.callers, s.prefixes)

granted-SamePolicy :
    {H : Type 0} (g h : Guarded H) → SamePolicy h g → (a : Access) → granted h a ≡ granted g a
unfolding granted ensure_fs_allowed
granted-SamePolicy g h s (list_dir path) = simp s.roots
granted-SamePolicy g h s (read_file path) = simp s.roots
granted-SamePolicy g h s (exists path) = simp s.roots
granted-SamePolicy g h s (write_file path content) = simp s.roots
granted-SamePolicy g h s (request host) = simp s.hosts

trail-SamePolicy :
    {H : Type 0} (stack : List Frame) (g h : Guarded H)
    → SamePolicy h g
    → (as' : List Access) → trail stack h as' ≡ trail stack g as'
unfolding trail
trail-SamePolicy stack g h s [] = refl
trail-SamePolicy stack g h s (a ∷ as') = simp (
  ensure_allowed-SamePolicy stack g h s,
  granted-SamePolicy g h s a,
  trail-SamePolicy stack g h s as',
)

perform_all-entries :
    {H : Type 0} (stack : List Frame) (n : ℤ) (as' : List Access) (g : Guarded H)
    → g.audit_step ≡ some n
    → (perform_all stack as' g).audit_entries ≡ g.audit_entries ++ trail stack g as'
unfolding perform_all trail
perform_all-entries stack n [] g during = sym (append-nil _)
perform_all-entries stack n (a ∷ as') g during =
    let l : Leaves g (grants stack g a) (perform stack a g) = perform-Leaves stack n g during a in
    perform_all-entries stack n as' (perform stack a g) (l.step ∙ during)
    ∙ rw (l.entries, trail-SamePolicy stack g _ l.policy as')
        (append_assoc g.audit_entries (grants stack g a) (trail stack g as'))

-- Between `begin_step` and `consume_audit` the audit holds one entry for each access that the
-- policy grants, in the order of the accesses, and nothing else.
pub consume_audit-perform_all :
    {H : Type 0} (stack : List Frame) (n : ℤ) (as' : List Access) (g : Guarded H)
    → (consume_audit (perform_all stack as' (begin_step n g))).0 ≡ trail stack g as'
unfolding consume_audit begin_step
consume_audit-perform_all {H} stack n as' g =
    let g' : Guarded H = record g { audit_entries = []; audit_step = some n } in
    perform_all-entries stack n as' g' refl
    ∙ trail-SamePolicy stack g g'
        (record { prefixes = refl; roots = refl; hosts = refl; callers = refl }) as'
