-- ===== src/Env/Guard.antt =====
-- `GuardedEnv` of agent_bench/env/environment.py. The call stack that `inspect.stack()` shows is
-- an argument. Each method returns its result and the state that it leaves, also when it raises.
pub mod Confinement
pub mod Trail
pub mod Files
use tracecore.Prelude.{
  String, Char, Bool, ◌||◌, Option, none, some, List, [], ◌∷◌, ◌++◌, eqb, code, if◌then◌else◌, any,
}
use tracecore.Prelude.Int.{ℤ}
use tracecore.Prelude.Text.{empty, ◌◃◌, starts_with, is_infix}
use tracecore.Exc.{Result, ok, raised, sandbox_violation, forbidden_access, invalid_path, fs_denied}
use tracecore.Value.{Value}
use tracecore.Env.Path.{normalize_path, normalize_fs_root, under_root}
use tracecore.Env.Network
use tracecore.Env.Network.{NetworkGuard, new_guard}
use tracecore.Env.State
use tracecore.Env.State.{Environment}

-- An audit entry of a file operation, or of a request.
pub data Audit : Type 0 where
  fs : String → String → Audit
  net : String → Audit

pub record Frame : Type 0 where
  pub module_name : String
  pub filename : String

pub record Guarded (H : Type 0) : Type 0 where
  pub env : Environment H
  pub allowed_prefixes : List String
  pub filesystem_roots : List String
  pub network_guard : NetworkGuard
  pub allow_test_callers : Bool
  pub audit_entries : List Audit
  pub audit_step : Option ℤ

abbrev slash : Char
slash = "/"

-- `filename.replace("\\", "/")`
unfoldable pub forward_slashes : String → String
forward_slashes empty = empty
forward_slashes (c ◃ s) = (if eqb (code c) 92 then slash else c) ◃ forward_slashes s

abbrev is_task_frame : List String → Frame → Bool
is_task_frame prefixes frame =
    any (λ prefix. starts_with frame.module_name prefix) prefixes
    || is_infix "/tasks/" (forward_slashes frame.filename)

pub normalize_roots : List String → Result (List String)
normalize_roots [] = ok []
normalize_roots (r ∷ rs) = elim (normalize_fs_root r) [
  | raised e ↦ raised e
  | ok root ↦ elim (normalize_roots rs) [ raised e ↦ raised e | ok roots ↦ ok (root ∷ roots) ]
]

-- The tests of `_ensure_fs_allowed` on a path, the roots and what the path is normalised to.
abbrev pub confine : String → List String → Result String → Result String
confine path roots (raised e) = raised (sandbox_violation (invalid_path path))
confine path roots (ok norm) =
    if any (under_root norm) roots
    then ok norm
    else raised (sandbox_violation (fs_denied norm roots))

-- Outside a step nothing is recorded.
abbrev pub append_audit : Option ℤ → List Audit → Audit → List Audit
append_audit none entries entry = entries
append_audit (some step) entries entry = entries ++ entry ∷ []

module _ {H : Type 0} where
  -- `GuardedEnv.__init__` with the default prefixes; an invalid root raises.
  unfoldable pub new_guarded : Environment H → List String → List String → Bool → Result (Guarded H)
  unfolding normalize_roots
  new_guarded env roots hosts allow_test = elim (normalize_roots roots) [
    | raised e ↦ raised e
    | ok normalized ↦ ok (record {
      env = env;
      allowed_prefixes = "tasks." ∷ "agent_bench.tasks." ∷ [];
      filesystem_roots = normalized;
      network_guard = new_guard hosts;
      allow_test_callers = allow_test;
      audit_entries = [];
      audit_step = none;
    })
  ]

  -- `_ensure_allowed`
  unfoldable pub ensure_allowed : List Frame → Guarded H → Result (Unit {0})
  ensure_allowed stack g =
      if g.allow_test_callers || any (is_task_frame g.allowed_prefixes) stack
      then ok tt
      else raised (sandbox_violation forbidden_access)

  -- `_ensure_fs_allowed`
  unfoldable pub ensure_fs_allowed : String → Guarded H → Result String
  ensure_fs_allowed path g = confine path g.filesystem_roots (normalize_path path)

  -- `_record_audit`
  unfoldable pub record_audit : Audit → Guarded H → Guarded H
  record_audit entry g = record g {
    audit_entries = append_audit g.audit_step g.audit_entries entry;
  }

  unfoldable pub begin_step : ℤ → Guarded H → Guarded H
  begin_step step g = record g { audit_entries = []; audit_step = some step }

  unfoldable pub consume_audit : Guarded H → List Audit × Guarded H
  consume_audit g = (g.audit_entries, record g { audit_entries = []; audit_step = none })

  abbrev with_env : Guarded H → Environment H → Guarded H
  with_env g env = record g { env = env }

  unfoldable pub set_hidden_state :
      List Frame → String → H → Guarded H → Result (Unit {0}) × Guarded H
  set_hidden_state stack key value g = elim (ensure_allowed stack g) [
    | raised e ↦ (raised e, g)
    | ok _ ↦ (ok tt, with_env g (State.set_hidden_state key value g.env))
  ]

  unfoldable pub get_hidden_state : List Frame → String → Guarded H → Result (Option H)
  get_hidden_state stack key g = elim (ensure_allowed stack g) [
    | raised e ↦ raised e
    | ok _ ↦ ok (State.get_hidden_state key g.env)
  ]

  unfoldable pub set_agent_output :
      List Frame → String → Value → Guarded H → Result (Unit {0}) × Guarded H
  set_agent_output stack key value g = elim (ensure_allowed stack g) [
    | raised e ↦ (raised e, g)
    | ok _ ↦ (ok tt, with_env g (State.set_agent_output key value g.env))
  ]

  unfoldable pub get_agent_output : List Frame → String → Guarded H → Result (Option Value)
  get_agent_output stack key g = elim (ensure_allowed stack g) [
    | raised e ↦ raised e
    | ok _ ↦ ok (State.get_agent_output key g.env)
  ]

  unfoldable pub mark_seen : List Frame → List String → Guarded H → Result (Unit {0}) × Guarded H
  mark_seen stack paths g = elim (ensure_allowed stack g) [
    | raised e ↦ (raised e, g)
    | ok _ ↦ let (r, env) = State.mark_seen paths g.env in (r, with_env g env)
  ]

  unfoldable pub visible_state : List Frame → Guarded H → Result Value
  visible_state stack g = elim (ensure_allowed stack g) [
    | raised e ↦ raised e
    | ok _ ↦ ok (State.visible_state g.env)
  ]

  unfoldable pub require_network : List Frame → String → Guarded H → Result (Unit {0}) × Guarded H
  require_network stack host g = elim (ensure_allowed stack g) [
    | raised e ↦ (raised e, g)
    | ok _ ↦ elim (Network.check g.network_guard host) [
      | raised e ↦ (raised e, g)
      | ok normalized ↦ (ok tt, record_audit (net normalized) g)
    ]
  ]

module _ {H A : Type 0} where
  -- What each file operation does first: the caller, the path, the audit entry.
  unfoldable pub file_op :
      String
      → List Frame
      → String
      → Guarded H
      → (Guarded H → Result A × Guarded H)
      → Result A × Guarded H
  file_op op stack path g rest = elim (ensure_allowed stack g) [
    | raised e ↦ (raised e, g)
    | ok _ ↦ elim (ensure_fs_allowed path g) [
      | raised e ↦ (raised e, g)
      | ok norm ↦ rest (record_audit (fs op norm) g)
    ]
  ]

module _ {H : Type 0} where
  unfoldable pub list_dir : List Frame → String → Guarded H → Result (List String) × Guarded H
  unfolding file_op
  list_dir stack path g = file_op "list_dir" stack path g (λ h. (State.list_dir path h.env, h))

  unfoldable pub read_file : List Frame → String → Guarded H → Result String × Guarded H
  unfolding file_op
  read_file stack path g = file_op "read_file" stack path g (λ h. (State.read_file path h.env, h))

  unfoldable pub exists : List Frame → String → Guarded H → Result Bool × Guarded H
  unfolding file_op
  exists stack path g = file_op "exists" stack path g (λ h. (State.exists path h.env, h))

  abbrev pub written : Guarded H → Result (Environment H) → Result (Unit {0}) × Guarded H
  written g (ok env) = (ok tt, with_env g env)
  written g (raised e) = (raised e, g)

  unfoldable pub write_file :
      List Frame → String → String → Guarded H → Result (Unit {0}) × Guarded H
  unfolding file_op
  write_file stack path content g =
      file_op "write_file" stack path g (λ h. written h (State.write_file path content h.env))
