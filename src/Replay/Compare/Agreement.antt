-- ===== src/Replay/Compare/Agreement.antt =====
-- When two runs are reported as the same.
use tracecore.Prelude.{
  ◌≡◌, ◌↔◌, refl, String, true, ◌&&◌, List, [], ◌∷◌, ◌++◌, length, arith, eqb, eqb_iff,
}
use tracecore.Prelude.Dict.{Dict}
use tracecore.Value.{Value, Items, Fields, null, bool, int, str, list, dict, get_or_null, to_dict}
use tracecore.Value.Equality.{value_eq}
use tracecore.Exc.{ok}
use tracecore.Replay.Audit.{
  Divergence, sandbox_lists, sandbox_differs, field_differs, step_count, unless,
}
use tracecore.Replay.Compare.{
  Artifact, Sides, same_at, is_list, validate_sandbox, same_fields, then_sandbox, sandbox_of,
  counts, record_errors, record_sides, check_record,
}
use tracecore.Replay.Compare.Steps.{
  append-empty, unless-empty, AreSameSteps, steps_sound, steps_complete,
}

-- A dict that lists the roots and the hosts.
pub record IsSandbox (v : Value) : Type 0 where
  pub fields : Fields
  pub roots : Items
  pub hosts : Items
  pub declared : v ≡ dict fields
  pub lists_roots : get_or_null "filesystem_roots" (to_dict fields) ≡ list roots
  pub lists_hosts : get_or_null "network_hosts" (to_dict fields) ≡ list hosts

is_list_sound : (v : Value) → is_list v ≡ true → (vs : Items) × (v ≡ list vs)
is_list_sound (list vs) h = (vs, refl)
is_list_sound null h = cc
is_list_sound (bool b) h = cc
is_list_sound (int n) h = cc
is_list_sound (str s) h = cc
is_list_sound (dict f) h = cc

pub IsSandbox-sound : (v : Value) (label : String) → validate_sandbox v label ≡ [] → IsSandbox v
unfolding validate_sandbox
IsSandbox-sound (dict f) label h =
    let both : (is_list (get_or_null "filesystem_roots" (to_dict f))
          && is_list (get_or_null "network_hosts" (to_dict f)))
        ≡ true =
      unless-empty _ (sandbox_lists label) h in
    let (roots, r) = is_list_sound (get_or_null "filesystem_roots" (to_dict f)) (ground arith) in
    let (hosts, q) = is_list_sound (get_or_null "network_hosts" (to_dict f)) (ground arith) in
    record {
      fields = f;
      roots = roots;
      hosts = hosts;
      declared = refl;
      lists_roots = r;
      lists_hosts = q;
    }
IsSandbox-sound null label h = cc
IsSandbox-sound (bool b) label h = cc
IsSandbox-sound (int n) label h = cc
IsSandbox-sound (str s) label h = cc
IsSandbox-sound (list vs) label h = cc

pub IsSandbox-complete : (v : Value) (label : String) → IsSandbox v → validate_sandbox v label ≡ []
unfolding validate_sandbox
IsSandbox-complete v label h = rw (h.declared, h.lists_roots, h.lists_hosts) refl

pub then_sandbox-empty :
    (v w : Value) (errors : List Divergence)
    → then_sandbox v w errors ≡ []
    → (errors ≡ []) × (value_eq v w ≡ true)
then_sandbox-empty v w [] h = (refl, unless-empty (value_eq v w) sandbox_differs h)
then_sandbox-empty v w (e ∷ es) h = cc

-- The two runs end alike, declare the same sandbox, and take the same steps within it.
pub record IsAgreement (s : Sides) (a b : Artifact) : Type 0 where
  pub success : same_at "success" null a.fields b.fields ≡ true
  pub termination : same_at "termination_reason" null a.fields b.fields ≡ true
  pub failure : same_at "failure_type" null a.fields b.fields ≡ true
  pub first_declared : IsSandbox (sandbox_of a)
  pub second_declared : IsSandbox (sandbox_of b)
  pub sandbox : value_eq (sandbox_of a) (sandbox_of b) ≡ true
  pub count : length a.action_trace ≡ length b.action_trace
  pub steps : AreSameSteps s 1 a.action_trace b.action_trace

pub same_fields-empty :
    (a b : Dict Value)
    → same_fields a b ≡ []
    → (same_at "success" null a b ≡ true)
      × (same_at "termination_reason" null a b ≡ true)
      × (same_at "failure_type" null a b ≡ true)
same_fields-empty a b h =
    let f1 = unless (same_at "success" null a b) (field_differs "success") in
    let f2 = unless (same_at "termination_reason" null a b) (field_differs "termination_reason") in
    let f3 = unless (same_at "failure_type" null a b) (field_differs "failure_type") in
    let (both, failure) = append-empty (f1 ++ f2) f3 h in
    let (success, termination) = append-empty f1 f2 both in
    (
      unless-empty _ (field_differs "success") success,
      unless-empty _ (field_differs "termination_reason") termination,
      unless-empty _ (field_differs "failure_type") failure,
    )

pub counts-empty :
    (a b : Artifact) → counts a b ≡ [] → length a.action_trace ≡ length b.action_trace
counts-empty a b h =
    (eqb_iff _ _).0 (unless-empty _ (step_count (length a.action_trace) (length b.action_trace)) h)

record_sound : (a b : Artifact) → check_record a b ≡ ok [] → IsAgreement (record_sides a b) a b
unfolding check_record
record_sound a b h =
    let (none_before, steps) =
      steps_sound (record_sides a b) 1 (record_errors a b) a.action_trace b.action_trace h in
    let first = validate_sandbox (sandbox_of a) "run1" in
    let second = validate_sandbox (sandbox_of b) "run2" in
    let (all_fields, counted) =
      append-empty
        (then_sandbox (sandbox_of a) (sandbox_of b)
          (same_fields a.fields b.fields ++ first ++ second))
        (counts a b) none_before in
    let (declared, sandbox) =
      then_sandbox-empty _ _ (same_fields a.fields b.fields ++ first ++ second) all_fields in
    let (e1, e2) = append-empty (same_fields a.fields b.fields ++ first) second declared in
    let (e3, e4) = append-empty (same_fields a.fields b.fields) first e1 in
    let (success, termination, failure) = same_fields-empty a.fields b.fields e3 in
    record {
      success = success;
      termination = termination;
      failure = failure;
      first_declared = IsSandbox-sound _ "run1" e4;
      second_declared = IsSandbox-sound _ "run2" e2;
      sandbox = sandbox;
      count = counts-empty a b counted;
      steps = steps;
    }

record_complete : (a b : Artifact) → IsAgreement (record_sides a b) a b → check_record a b ≡ ok []
unfolding check_record
record_complete a b h =
    let same : eqb (length a.action_trace) (length b.action_trace) ≡ true =
      (eqb_iff _ _).1 h.count in
    rw
      (
        h.success,
        h.termination,
        h.failure,
        IsSandbox-complete _ "run1" h.first_declared,
        IsSandbox-complete _ "run2" h.second_declared,
        h.sandbox,
        same,
      )
      (steps_complete (record_sides a b) 1 a.action_trace b.action_trace h.steps)

-- `check_record` finds nothing exactly when the two runs agree: on success, termination reason and
-- failure type, on a sandbox that both declare, on the number of steps, and at each step on action,
-- result and audit, where both audits are there and keep to their run's sandbox.
pub check_record_iff :
    (a b : Artifact) → (check_record a b ≡ ok []) ↔ IsAgreement (record_sides a b) a b
check_record_iff a b = (record_sound a b, record_complete a b)
