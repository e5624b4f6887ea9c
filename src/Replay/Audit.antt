-- ===== src/Replay/Audit.antt =====
-- `_audit_allowed` of agent_bench/runner/replay.py. A message of the source is a constructor with
-- what the message names, except the printed values.
pub mod Allowed
use tracecore.Prelude.{
  ℕ, suc, String, Bool, true, false, ◌&&◌, Option, none, some, List, [], ◌∷◌, ◌++◌, ◌==◌, length,
  eqb, if◌then◌else◌,
}
use tracecore.Prelude.Int.{ℤ, ltb_ℤ}
use tracecore.Prelude.Dict.{Dict, get, contains}
use tracecore.Value.{
  get_or, Value, Items, null, str, list, dict, nil, obj, truthy, get_or_null, to_dict,
}
use tracecore.Value.Equality.{value_eq}
use tracecore.Exc.{Exc, Result, ok, raised, ◌>>=◌, sandbox_violation, type_error}
use tracecore.Env.Path.{under_root}
use tracecore.Env.Network
use tracecore.Env.Network.{NetworkGuard, normalize_host}
use tracecore.Runner.Model.{iterate}

pub data Divergence : Type 0 where
  sandbox_missing sandbox_lists : String → Divergence
  sandbox_differs : Divergence
  field_differs : String → Divergence
  step_count : ℕ → ℕ → Divergence
  audit_missing : String → ℕ → Divergence
  action_differs result_differs audit_differs : ℕ → Divergence
  entry_no_object path_missing host_missing host_refused entry_unknown : String → ℕ → Divergence
  path_outside : String → ℕ → String → Divergence
  exceeded : String → Divergence

abbrev pub unless : Bool → Divergence → List Divergence
unless true d = []
unless false d = d ∷ []

-- The test of a path at each root, up to the first that accepts. A root that is no text raises.
unfoldable pub covered : String → List Value → Result Bool
covered path [] = ok false
covered path (str root ∷ roots) =
    let rest = covered path roots in if under_root path root then ok true else rest
covered path (root ∷ roots) = raised (type_error "root")

abbrev pub items_of : Value → Result (List Value)
items_of v = elim (iterate v) [ none ↦ raised (type_error "not iterable") | some vs ↦ ok vs ]

-- `NetworkGuard(net_hosts)`, of any values.
unfoldable pub guard_of : List Value → Result NetworkGuard
guard_of [] = ok []
guard_of (v ∷ vs) =
    let rest = guard_of vs in
    if truthy v
    then elim v [
      | str h ↦ (do hosts ← rest; ok (normalize_host h ∷ hosts))
      | _ ↦ raised (type_error "host")
    ]
    else rest

abbrev pub refused_path : String → ℕ → String → Bool → List Divergence
refused_path label n path allowed = unless allowed (path_outside label n path)

-- An exception other than the guard's own goes through.
abbrev pub refused_host : String → ℕ → Result String → Result (List Divergence)
refused_host label n (ok host) = ok []
refused_host label n (raised (sandbox_violation v)) = ok (host_refused label n ∷ [])
refused_host label n (raised e) = raised e

abbrev pub check_path : Value → String → ℕ → Value → Result (List Divergence)
check_path roots label n (str path) = do
  rs ← items_of roots
  allowed ← covered path rs
  ok (refused_path label n path allowed)
check_path roots label n _ = ok (path_missing label n ∷ [])

abbrev pub check_host : NetworkGuard → String → ℕ → Value → Result (List Divergence)
check_host guard label n (str host) = refused_host label n (Network.check guard host)
check_host guard label n _ = ok (host_missing label n ∷ [])

abbrev pub check_kind :
    Value → NetworkGuard → String → ℕ → Value → Dict Value → Result (List Divergence)
check_kind roots guard label n kind entry =
    if value_eq kind (str "fs")
    then check_path roots label n (get_or_null "path" entry)
    else if value_eq kind (str "net")
    then check_host guard label n (get_or_null "host" entry)
    else ok (entry_unknown label n ∷ [])

abbrev pub check_entry : Value → NetworkGuard → String → ℕ → Value → Result (List Divergence)
check_entry roots guard label n (dict f) =
    check_kind roots guard label n (get_or_null "type" (to_dict f)) (to_dict f)
check_entry roots guard label n _ = ok (entry_no_object label n ∷ [])

unfoldable pub check_entries :
    Value → NetworkGuard → String → ℕ → List Value → Result (List Divergence)
unfolding covered
check_entries roots guard label n [] = ok []
check_entries roots guard label n (v ∷ vs) = do
  es ← check_entry roots guard label n v
  rest ← check_entries roots guard label n vs
  ok (es ++ rest)

-- `_audit_allowed`; the sandbox is a dict where it is called.
unfoldable pub audit_allowed : Value → Value → String → ℕ → Result (List Divergence)
unfolding check_entries guard_of
audit_allowed io_audit (dict f) label n = do
  hosts ← items_of (get_or "network_hosts" (list nil) (to_dict f))
  guard ← guard_of hosts
  entries ← items_of io_audit
  check_entries (get_or "filesystem_roots" (list nil) (to_dict f)) guard label n entries
audit_allowed io_audit _ label n = raised (type_error "sandbox")
