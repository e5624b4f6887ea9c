-- ===== src/Replay/Audit/Allowed.antt =====
-- Which audits are allowed.
use tracecore.Prelude.{
  ℕ, ◌≡◌, ◌↔◌, refl, sym, false≢true, String, true, false, List, [], ◌∷◌, inl, inr, Bool-cases, All,
}
use tracecore.Value.{
  Value, Items, Fields, null, bool, int, str, list, dict, to_list, to_dict, get_or_null,
}
use tracecore.Value.Equality.{value_eq}
use tracecore.Exc.{
  Result, ok, raised, Result-cases, ok_inj, ok-ne-raised, found-append_iff, sandbox_violation,
  value_error, key_error, runtime_error, type_error, attribute_error, file_not_found,
}
use tracecore.Env.Path.{under_root}
use tracecore.Env.Path.Under.{IsUnder, under_root_iff}
use tracecore.Env.Network
use tracecore.Env.Network.{NetworkGuard}
use tracecore.Replay.Audit.{
  covered, check_entry, check_entries, check_path, check_host, refused_host,
}

filled : {A : Type 0} {x : A} {xs : List A} → ◌≡◌ {A = List A} (x ∷ xs) [] → ⊥
filled h = cc

-- Some root, with nothing but texts before it, covers the path.
pub data Covers (path : String) : List Value → Type 0 where
  here : {root : String} {roots : List Value} → IsUnder root path → Covers path (str root ∷ roots)
  there : {root : String} {roots : List Value} → Covers path roots → Covers path (str root ∷ roots)

covered_sound :
    (path : String) (roots : List Value) → covered path roots ≡ ok true → Covers path roots
unfolding covered
covered_sound path [] h = absurd (false≢true (ok_inj h))
covered_sound path (str root ∷ roots) h = elim (Bool-cases (under_root path root)) [
  | inl e ↦ here ((under_root_iff path root).0 e)
  | inr e ↦ there (covered_sound path roots (rw e at h))
]
covered_sound path (null ∷ roots) h = cc
covered_sound path (bool b ∷ roots) h = cc
covered_sound path (int m ∷ roots) h = cc
covered_sound path (list vs ∷ roots) h = cc
covered_sound path (dict f ∷ roots) h = cc

covered_complete :
    (path : String) {roots : List Value} → Covers path roots → covered path roots ≡ ok true
unfolding covered
covered_complete path (here {root} {roots} u) = rw ((under_root_iff path root).1 u) refl
covered_complete path (there {root} {roots} c) = elim (Bool-cases (under_root path root)) [
  | inl e ↦ rw e refl
  | inr e ↦ rw e (covered_complete path c)
]

-- An entry of an audit that keeps to the roots and to the guard.
pub data IsAllowed (roots : List Value) (guard : NetworkGuard) (entry : Value) : Type 0 where
  file :
      (f : Fields) (path : String)
      → entry ≡ dict f
      → value_eq (get_or_null "type" (to_dict f)) (str "fs") ≡ true
      → get_or_null "path" (to_dict f) ≡ str path
      → Covers path roots
      → IsAllowed roots guard entry
  request :
      (f : Fields) (host granted : String)
      → entry ≡ dict f
      → value_eq (get_or_null "type" (to_dict f)) (str "fs") ≡ false
      → value_eq (get_or_null "type" (to_dict f)) (str "net") ≡ true
      → get_or_null "host" (to_dict f) ≡ str host
      → Network.check guard host ≡ ok granted
      → IsAllowed roots guard entry

module _ (roots : Items) (guard : NetworkGuard) (label : String) (n : ℕ) where
  entry_complete :
      (v : Value)
      → IsAllowed (to_list roots) guard v
      → check_entry (list roots) guard label n v ≡ ok []
  entry_complete v (file f path e k p c) = rw (e, k, p, covered_complete path c) refl
  entry_complete v (request f host granted e k q h c) = rw (e, k, q, h, c) refl

  path_sound :
      (v : Value)
      → check_path (list roots) label n v ≡ ok []
      → (path : String) × (v ≡ str path) × Covers path (to_list roots)
  path_sound (str path) h = elim (Result-cases (covered path (to_list roots))) [
    | inr (x, e) ↦ absurd (ok-ne-raised (sym (rw e at h)))
    | inl (true, e) ↦ (path, refl, covered_sound path (to_list roots) e)
    | inl (false, e) ↦ absurd (filled (ok_inj (rw e at h)))
  ]
  path_sound null h = absurd (filled (ok_inj h))
  path_sound (bool b) h = absurd (filled (ok_inj h))
  path_sound (int m) h = absurd (filled (ok_inj h))
  path_sound (list vs) h = absurd (filled (ok_inj h))
  path_sound (dict f) h = absurd (filled (ok_inj h))

  granted_sound :
      (r : Result String) → refused_host label n r ≡ ok [] → (host : String) × (r ≡ ok host)
  granted_sound (ok host) h = (host, refl)
  granted_sound (raised (sandbox_violation v)) h = absurd (filled (ok_inj h))
  granted_sound (raised (value_error t)) h = absurd (ok-ne-raised (sym h))
  granted_sound (raised (key_error t)) h = absurd (ok-ne-raised (sym h))
  granted_sound (raised (runtime_error t)) h = absurd (ok-ne-raised (sym h))
  granted_sound (raised (type_error t)) h = absurd (ok-ne-raised (sym h))
  granted_sound (raised (attribute_error t)) h = absurd (ok-ne-raised (sym h))
  granted_sound (raised (file_not_found t)) h = absurd (ok-ne-raised (sym h))

  host_sound :
      (v : Value)
      → check_host guard label n v ≡ ok []
      → (host : String) × (v ≡ str host)
        × ((granted : String) × (Network.check guard host ≡ ok granted))
  host_sound (str host) h = (host, refl, granted_sound (Network.check guard host) h)
  host_sound null h = absurd (filled (ok_inj h))
  host_sound (bool b) h = absurd (filled (ok_inj h))
  host_sound (int m) h = absurd (filled (ok_inj h))
  host_sound (list vs) h = absurd (filled (ok_inj h))
  host_sound (dict f) h = absurd (filled (ok_inj h))

  entry_sound :
      (v : Value)
      → check_entry (list roots) guard label n v ≡ ok []
      → IsAllowed (to_list roots) guard v
  entry_sound (dict f) h =
      elim (Bool-cases (value_eq (get_or_null "type" (to_dict f)) (str "fs"))) [
        | inl e ↦
            let (path, p, c) = path_sound (get_or_null "path" (to_dict f)) (rw e at h) in
            file f path refl e p c
        | inr e ↦ elim (Bool-cases (value_eq (get_or_null "type" (to_dict f)) (str "net"))) [
          | inl k ↦
              let (host, p, g) = host_sound (get_or_null "host" (to_dict f)) (rw (e, k) at h) in
              request f host g.0 refl e k p g.1
          | inr k ↦ absurd (filled (ok_inj (rw (e, k) at h)))
        ]
      ]
  entry_sound null h = absurd (filled (ok_inj h))
  entry_sound (bool b) h = absurd (filled (ok_inj h))
  entry_sound (int m) h = absurd (filled (ok_inj h))
  entry_sound (list vs) h = absurd (filled (ok_inj h))
  entry_sound (str t) h = absurd (filled (ok_inj h))

  entries_sound :
      (vs : List Value)
      → check_entries (list roots) guard label n vs ≡ ok []
      → All (λ v. IsAllowed (to_list roots) guard v) vs
  unfolding check_entries
  entries_sound [] h = tt
  entries_sound (v ∷ vs) h =
      let (first, rest) =
        (found-append_iff (check_entry (list roots) guard label n v)
            (check_entries (list roots) guard label n vs)).0
          h in
      (entry_sound v first, entries_sound vs rest)

  entries_complete :
      (vs : List Value)
      → All (λ v. IsAllowed (to_list roots) guard v) vs
      → check_entries (list roots) guard label n vs ≡ ok []
  unfolding check_entries
  entries_complete [] h = refl
  entries_complete (v ∷ vs) h = rw (entry_complete v h.0) (rw (entries_complete vs h.1) refl)

  -- Against a list of roots and a guard, the check of an audit finds nothing exactly when each entry
  -- is a file access whose path some root covers, or a request that the guard lets through.
  pub check_entries_iff :
      (vs : List Value)
      → (check_entries (list roots) guard label n vs ≡ ok [])
        ↔ All (λ v. IsAllowed (to_list roots) guard v) vs
  check_entries_iff vs = (entries_sound vs, entries_complete vs)
