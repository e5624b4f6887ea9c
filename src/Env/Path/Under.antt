-- ===== src/Env/Path/Under.antt =====
-- The test on texts by which a path is found to lie under a root, against the components of both.
use tracecore.Prelude.{
  String, ◌≡◌, refl, sym, ap, ◌∙◌, ◌↔◌, ◌⊎◌, inl, inr, true, List, [], ◌∷◌, ◌++◌, arith, ◌==◌,
  eq_iff, Bool-cases,
}
use mathlib.Core.List.{append-nil}
use tracecore.Prelude.Text.{starts_with, split, join, ◌<>◌}
use tracecore.Prelude.Text.Split.{
  split-append, starts_with-append, append-starts_with, append_assoc, join-split, join-split-append,
}
use tracecore.Env.Path.{under_root}

-- The components of the path begin with those of the root.
abbrev pub IsUnder : String → String → Type 0
IsUnder root norm =
    (root ≡ "/") ⊎ ((rest : List String) × (split b'/' norm ≡ split b'/' root ++ rest))

under_root_sound : (norm root : String) → under_root norm root ≡ true → IsUnder root norm
unfolding under_root
under_root_sound norm root h = elim (Bool-cases (root == "/")) [
  | inl e ↦ inl ((eq_iff root "/").0 e)
  | inr n ↦ elim (Bool-cases (norm == root)) [
    | inl e ↦ inr ([], rw ((eq_iff norm root).0 e) (sym (append-nil _)))
    | inr m ↦
        let (t, e) = starts_with-append norm (root <> "/") (ground arith) in
        inr (split b'/' t, rw (e, append_assoc root "/" t) (split-append b'/' root "/" t refl))
  ]
]

under_root_complete : (norm root : String) → IsUnder root norm → under_root norm root ≡ true
unfolding under_root
under_root_complete norm root (inl e) = ground (arith, eq_iff root "/")
under_root_complete norm root (inr ([], e)) =
    let q : norm ≡ root =
      sym (join-split norm) ∙ ap (join "/") (e ∙ append-nil _) ∙ join-split root in
    ground (arith, eq_iff norm root)
under_root_complete norm root (inr (q ∷ qs, e)) =
    let j : norm ≡ (root <> "/") <> join "/" (q ∷ qs) =
      sym (join-split norm)
      ∙ ap (join "/") e
      ∙ join-split-append root q qs
      ∙ sym (append_assoc root "/" (join "/" (q ∷ qs))) in
    let b : starts_with norm (root <> "/") ≡ true = rw j (append-starts_with (root <> "/") _) in
    ground arith

-- The test accepts exactly the paths whose components begin with the root's.
pub under_root_iff : (norm root : String) → (under_root norm root ≡ true) ↔ IsUnder root norm
under_root_iff norm root = (under_root_sound norm root, under_root_complete norm root)
