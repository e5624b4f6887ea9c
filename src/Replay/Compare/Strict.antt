-- ===== src/Replay/Compare/Strict.antt =====
-- When a fresh run passes the strict check against a baseline.
use tracecore.Prelude.{
  ◌≡◌, ◌↔◌, refl, sym, String, true, false, Option, none, some, List, [], ◌∷◌, ◌++◌, length, arith,
  eqb, eqb_iff, inl, inr, Bool-cases,
}
use tracecore.Prelude.Int.{ℤ, ltb_ℤ, ◌≤ℤ◌, ◌<ℤ◌}
use tracecore.Exc.{ok, Result-cases, ok_inj, ok-ne-raised}
use tracecore.Replay.Audit.{Divergence}
use tracecore.Replay.Compare.{
  Artifact, validate_sandbox, same_fields, then_sandbox, sandbox_of, counts, replay_errors,
  replay_sides, unless_over, check_replay, check_strict,
}
use tracecore.Replay.Compare.Steps.{append-empty, steps_sound, steps_complete}
use tracecore.Replay.Compare.Agreement.{
  IsAgreement, IsSandbox-sound, IsSandbox-complete, then_sandbox-empty, same_fields-empty,
  counts-empty,
}

replay_sound : (m f : Artifact) → check_replay m f ≡ ok [] → IsAgreement (replay_sides m) m f
unfolding check_replay
replay_sound m f h =
    let (none_before, steps) =
      steps_sound (replay_sides m) 1 (replay_errors m f) m.action_trace f.action_trace h in
    let first = validate_sandbox (sandbox_of m) "manifest" in
    let second = validate_sandbox (sandbox_of f) "run" in
    let declared = then_sandbox (sandbox_of m) (sandbox_of f) (first ++ second) in
    let (e1, counted) =
      append-empty (declared ++ same_fields m.fields f.fields) (counts m f) none_before in
    let (e2, e3) = append-empty declared (same_fields m.fields f.fields) e1 in
    let (e4, sandbox) = then_sandbox-empty _ _ (first ++ second) e2 in
    let (e5, e6) = append-empty first second e4 in
    let (success, termination, failure) = same_fields-empty m.fields f.fields e3 in
    record {
      success = success;
      termination = termination;
      failure = failure;
      first_declared = IsSandbox-sound _ "manifest" e5;
      second_declared = IsSandbox-sound _ "run" e6;
      sandbox = sandbox;
      count = counts-empty m f counted;
      steps = steps;
    }

replay_complete : (m f : Artifact) → IsAgreement (replay_sides m) m f → check_replay m f ≡ ok []
unfolding check_replay
replay_complete m f h =
    let same : eqb (length m.action_trace) (length f.action_trace) ≡ true =
      (eqb_iff _ _).1 h.count in
    rw
      (
        IsSandbox-complete _ "manifest" h.first_declared,
        IsSandbox-complete _ "run" h.second_declared,
        h.sandbox,
        h.success,
        h.termination,
        h.failure,
        same,
      )
      (steps_complete (replay_sides m) 1 m.action_trace f.action_trace h.steps)

-- No count is over a baseline's that is there.
abbrev pub IsNotOver : Option ℤ → Option ℤ → Type 0
IsNotOver (some b) (some f) = f ≤ℤ b
IsNotOver _ _ = Unit

filled : {d : Divergence} → ◌≡◌ {A = List Divergence} (d ∷ []) [] → ⊥
filled h = cc

late : (b f : ℤ) → ltb_ℤ b f ≡ true → b <ℤ f
late b f e = ground arith

soon : (b f : ℤ) → ltb_ℤ b f ≡ false → f ≤ℤ b
soon b f e = ground arith

over_iff : (b f : Option ℤ) (key : String) → (unless_over b f key ≡ []) ↔ IsNotOver b f
over_iff none f key = (λ h. tt, λ h. refl)
over_iff (some b) none key = (λ h. tt, λ h. refl)
over_iff (some b) (some f) key = elim (Bool-cases (ltb_ℤ b f)) [
  | inl e ↦ rw e ((λ h. absurd (filled h)), (λ h. absurd (omega (arith, late b f e, h))))
  | inr e ↦ rw e ((λ h. soon b f e), (λ h. refl))
]

strict_sound :
    (m f : Artifact)
    → check_strict m f ≡ ok []
    → IsAgreement (replay_sides m) m f
      × IsNotOver m.steps_used f.steps_used
      × IsNotOver m.tool_calls_used f.tool_calls_used
unfolding check_strict
strict_sound m f h =
    let steps = unless_over m.steps_used f.steps_used "steps_used" in
    let tools = unless_over m.tool_calls_used f.tool_calls_used "tool_calls_used" in
    elim (Result-cases (check_replay m f)) [
      | inr (x, e) ↦ absurd (ok-ne-raised (sym (rw e at h)))
      | inl (es, e) ↦
          let found : (es ++ steps ++ tools) ≡ [] = ok_inj (rw e at h) in
          let (both, t) = append-empty (es ++ steps) tools found in
          let (none_found, s) = append-empty es steps both in
          (
            replay_sound m f (rw none_found at e),
            (over_iff m.steps_used f.steps_used "steps_used").0 s,
            (over_iff m.tool_calls_used f.tool_calls_used "tool_calls_used").0 t,
          )
    ]

strict_complete :
    (m f : Artifact)
    → IsAgreement (replay_sides m) m f
      × IsNotOver m.steps_used f.steps_used
      × IsNotOver m.tool_calls_used f.tool_calls_used
    → check_strict m f ≡ ok []
unfolding check_strict
strict_complete m f h =
    rw
      (
        replay_complete m f h.0,
        (over_iff m.steps_used f.steps_used "steps_used").1 h.1,
        (over_iff m.tool_calls_used f.tool_calls_used "tool_calls_used").1 h.2,
      )
      refl

-- `check_replay` finds nothing exactly when the fresh run agrees with the manifest: on success,
-- termination reason and failure type, on a sandbox that both declare, on the number of steps, and
-- at each step on action, result and audit, where both audits are there and keep to the manifest's
-- sandbox.
pub check_replay_iff :
    (m f : Artifact) → (check_replay m f ≡ ok []) ↔ IsAgreement (replay_sides m) m f
check_replay_iff m f = (replay_sound m f, replay_complete m f)

-- `check_strict` finds nothing exactly when the fresh run agrees with the manifest as in a replay,
-- and neither its steps nor its tool calls are more than the manifest's, where both are there.
pub check_strict_iff :
    (m f : Artifact)
    → (check_strict m f ≡ ok []) ↔ (
        IsAgreement (replay_sides m) m f
        × IsNotOver m.steps_used f.steps_used
        × IsNotOver m.tool_calls_used f.tool_calls_used)
check_strict_iff m f = (strict_sound m f, strict_complete m f)
