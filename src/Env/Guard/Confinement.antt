-- ===== src/Env/Guard/Confinement.antt =====
-- Which paths the guard lets through.
use tracecore.Prelude.{
  String, ◌≡◌, ◌≢◌, ◌↔◌, inl, inr, true, All, Any, any, any-Any, Any-any, arith,
}
use tracecore.Prelude.Text.{split}
use tracecore.Exc.{ok, Result-cases}
use tracecore.Env.Path.{normalize_path, under_root}
use tracecore.Env.Path.Clean.{normalize_path-IsClean}
use tracecore.Env.Path.Under.{IsUnder, under_root_iff}
use tracecore.Env.Guard.{Guarded, ensure_fs_allowed}

-- The path is accepted, and its components begin with those of a root.
abbrev pub MayAccess : {H : Type 0} → Guarded H → String → String → Type 0
MayAccess g path norm =
    (normalize_path path ≡ ok norm) × Any (λ root. IsUnder root norm) g.filesystem_roots

module _ {H : Type 0} (g : Guarded H) (path : String) where
  access_tests :
      (norm : String)
      → ensure_fs_allowed path g ≡ ok norm
      → (normalize_path path ≡ ok norm) × (any (under_root norm) g.filesystem_roots ≡ true)
  unfolding ensure_fs_allowed
  access_tests norm h = elim (Result-cases (normalize_path path)) [
    | inl (n, e) ↦ ground arith
    | inr (x, e) ↦ ground arith
  ]

  access_sound : (norm : String) → ensure_fs_allowed path g ≡ ok norm → MayAccess g path norm
  access_sound norm h =
      let (e, t) = access_tests norm h in
      (
        e,
        any-Any (under_root norm) (λ root. IsUnder root norm) (λ root. (under_root_iff norm root).0)
            g.filesystem_roots t,
      )

  access_complete : (norm : String) → MayAccess g path norm → ensure_fs_allowed path g ≡ ok norm
  unfolding ensure_fs_allowed
  access_complete norm (e, u) =
      let t : any (under_root norm) g.filesystem_roots ≡ true =
        Any-any (under_root norm) (λ root. IsUnder root norm) (λ root. (under_root_iff norm root).1)
          g.filesystem_roots u in
      rw e (rw t)

  -- The guard lets a path through exactly when `normalize_path` accepts it and the components of
  -- the result begin with those of a root.
  pub ensure_fs_allowed_iff :
      (norm : String) → (ensure_fs_allowed path g ≡ ok norm) ↔ MayAccess g path norm
  ensure_fs_allowed_iff norm = (access_sound norm, access_complete norm)

  -- A path that is let through has no component "..".
  pub ensure_fs_allowed-IsClean :
      (norm : String)
      → ensure_fs_allowed path g ≡ ok norm
      → All (λ part. part ≢ "..") (split b'/' norm)
  ensure_fs_allowed-IsClean norm h = (normalize_path-IsClean path (access_sound norm h).0).1
