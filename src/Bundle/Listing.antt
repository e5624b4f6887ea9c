-- ===== src/Bundle/Listing.antt =====
-- Which listings of a bundle are found intact.
use tracecore.Prelude.{
  String, ◌≡◌, refl, ◌↔◌, ◌==◌, eq_iff, Option, none, some, List, [], ◌∷◌, append-nil_iff, All, inl,
  inr, Bool-cases, Option-cases,
}
use tracecore.Prelude.Dict.{get}
use tracecore.Prelude.Text.{strip}
use tracecore.Files.{Library, Directory}
use tracecore.Bundle.Text.{cut}
use tracecore.Bundle.Verify.{Fault, digest_faults, line_faults, integrity_faults}

-- A line of the listing that is blank, or that gives a file of the directory its digest.
pub data IsIntact (lib : Library) (d : Directory) (line : String) : Type 0 where
  blank : strip line ≡ "" → IsIntact lib d line
  file :
      (name text : String)
      → cut (strip line) ≡ some (lib.sha256 text, name)
      → get name d ≡ some text
      → IsIntact lib d line

module _ (lib : Library) (d : Directory) where
  digest_sound :
      (expected name : String) (o : Option String)
      → digest_faults lib expected name o ≡ []
      → (text : String) × (o ≡ some text) × (lib.sha256 text ≡ expected)
  digest_sound expected name none h = cc
  digest_sound expected name (some text) h = elim (Bool-cases (lib.sha256 text == expected)) [
    | inl e ↦ (text, refl, (eq_iff (lib.sha256 text) expected).0 e)
    | inr e ↦ absurd (some_fault (rw e at h))
  ]
    where
      some_fault : {x : Fault} → ◌≡◌ {A = List Fault} (x ∷ []) [] → ⊥
      some_fault h = cc

  line_sound : (line : String) → line_faults lib d (strip line) ≡ [] → IsIntact lib d line
  line_sound line h = elim (Bool-cases (strip line == "")) [
    | inl e ↦ blank ((eq_iff (strip line) "").0 e)
    | inr e ↦ elim (Option-cases (cut (strip line))) [
      | inl m ↦ absurd (some_fault (rw (e, m) at h))
      | inr ((expected, name), c) ↦
          let (text, g, s) = digest_sound expected name (get name d) (rw (e, c) at h) in
          file name text (rw s c) g
    ]
  ]
    where
      some_fault : {x : Fault} → ◌≡◌ {A = List Fault} (x ∷ []) [] → ⊥
      some_fault h = cc

  line_complete : (line : String) → IsIntact lib d line → line_faults lib d (strip line) ≡ []
  line_complete line (blank b) = rw ((eq_iff (strip line) "").1 b) refl
  line_complete line (file name text c g) = elim (Bool-cases (strip line == "")) [
    | inl e ↦ rw e refl
    | inr e ↦ rw (e, c, g, (eq_iff (lib.sha256 text) (lib.sha256 text)).1 refl) refl
  ]

  pub integrity_faults_iff :
      (lines : List String) → (integrity_faults lib d lines ≡ []) ↔ All (IsIntact lib d) lines
  unfolding integrity_faults
  integrity_faults_iff [] = (λ h. tt, λ h. refl)
  integrity_faults_iff (line ∷ lines) =
      let rest = integrity_faults_iff lines in
      let both = append-nil_iff (line_faults lib d (strip line)) (integrity_faults lib d lines) in
      (
        λ h. (line_sound line (both.0 h).0, rest.0 (both.0 h).1),
        λ h. both.1 (line_complete line h.0, rest.1 h.1),
      )
