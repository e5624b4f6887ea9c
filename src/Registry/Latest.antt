-- ===== src/Registry/Latest.antt =====
-- The newest version of a task.
use tracecore.Prelude.{
  ◌≡◌, ◌≢◌, refl, sym, ◌∙◌, ap, subst, String, true, Option, none, some, List, [], ◌∷◌, ◌++◌, ◌==◌,
  eq_iff, eq_refl, All, Any, filter, inl, inr, Bool-cases, Option-cases, arith, if◌then◌else◌,
}
use tracecore.Prelude.Int.{ℤ, ◌≤ℤ◌, leb_ℤ→le, leb_ℤ→lt}
use tracecore.Prelude.Sort.{insert_sorted, sort_by, sort_by-nil_iff}
use tracecore.Registry.Descriptor.{TaskDescriptor}
use tracecore.Registry.Store.{
  Key, same_key, Registry, register, merge, ensure_registry, lookup, matches, newer, first,
  get_task_descriptor,
}
use tracecore.Registry.Merged.{
  key_of, last_with, last_with-key, some_inj, same_key_refl, same_key-eq,
  get_task_descriptor-last_with,
}

-- A descriptor is one of a list.
abbrev pub IsAmong : TaskDescriptor → List TaskDescriptor → Type 0
IsAmong d ds = Any (λ e. e ≡ d) ds

All-IsAmong :
    (P : TaskDescriptor → Type 0) (d : TaskDescriptor) (ds : List TaskDescriptor)
    → All P ds
    → IsAmong d ds
    → P d
All-IsAmong P d (e ∷ ds) h (inl s) = subst P s (h.0)
All-IsAmong P d (e ∷ ds) h (inr m) = All-IsAmong P d ds (h.1) m
All-IsAmong P d [] h m = absurd m

-- The first of the sorted list is one of the list, and none of the list is newer.
abbrev IsNewest : TaskDescriptor → List TaskDescriptor → Type 0
IsNewest d ds = IsAmong d ds × All (λ e. e.version ≤ℤ d.version) ds

All-older :
    (a b : TaskDescriptor) (ds : List TaskDescriptor)
    → a.version ≤ℤ b.version
    → All (λ e. e.version ≤ℤ a.version) ds
    → All (λ e. e.version ≤ℤ b.version) ds
All-older a b [] le h = tt
All-older a b (d ∷ ds) le h = (omega (arith, h.0), All-older a b ds le (h.1))

first-insert_sorted :
    (a b : TaskDescriptor) (bs : List TaskDescriptor)
    → first (insert_sorted newer a (b ∷ bs)) ≡ some (if newer a b then a else b)
unfolding insert_sorted
first-insert_sorted a b bs = elim (Bool-cases (newer a b)) [ inl h ↦ rw h refl | inr h ↦ rw h refl ]

none-ne-some : {d : TaskDescriptor} → none ≡ some d → ⊥
none-ne-some h = cc

inserted-IsNewest :
    (a d : TaskDescriptor) (ds bs : List TaskDescriptor)
    → sort_by newer ds ≡ bs
    → ((b : TaskDescriptor) → first bs ≡ some b → IsNewest b ds)
    → first (insert_sorted newer a bs) ≡ some d
    → IsNewest d (a ∷ ds)
unfolding insert_sorted
inserted-IsNewest a d ds [] e ih h =
    subst (λ x. IsNewest x (a ∷ ds)) (some_inj h)
      (inl refl, (omega arith, rw ((sort_by-nil_iff newer ds).0 e) tt))
inserted-IsNewest a d ds (b ∷ bs) e ih h =
    let newest = ih b refl in
    let chosen : (if newer a b then a else b) ≡ d =
      some_inj (sym (first-insert_sorted a b bs) ∙ h) in
    elim (Bool-cases (newer a b)) [
      | inl n ↦
          subst (λ x. IsNewest x (a ∷ ds)) (rw n at chosen)
            (inl refl, (omega arith, All-older b a ds (leb_ℤ→le b.version a.version n) (newest.1)))
      | inr n ↦
          subst (λ x. IsNewest x (a ∷ ds)) (rw n at chosen)
            (inr (newest.0), (omega (arith, leb_ℤ→lt b.version a.version n), newest.1))
    ]

sort_by-IsNewest :
    (d : TaskDescriptor) (ds : List TaskDescriptor)
    → first (sort_by newer ds) ≡ some d
    → IsNewest d ds
unfolding sort_by
sort_by-IsNewest d [] h = cc
sort_by-IsNewest d (a ∷ ds) h =
    inserted-IsNewest a d ds (sort_by newer ds) refl (λ b. sort_by-IsNewest b ds) h

first-none : (ds : List TaskDescriptor) → first ds ≡ none → ds ≡ []
first-none [] h = refl
first-none (d ∷ ds) h = cc

-- An entry of the registry: its key names its descriptor, which was given.
abbrev IsEntry : List TaskDescriptor → Key × TaskDescriptor → Type 0
IsEntry given e = (e.0.0 ≡ (e.1).id) × IsAmong (e.1) given

register-IsEntry :
    (given : List TaskDescriptor) (d : TaskDescriptor) (r : Registry)
    → IsAmong d given
    → All (IsEntry given) r
    → All (IsEntry given) (register (key_of d) d r)
unfolding register
register-IsEntry given d [] m h = ((refl, m), tt)
register-IsEntry given d ((j, e) ∷ r) m h = elim (Bool-cases (same_key j (key_of d))) [
  | inl s ↦ rw s ((ap (λ k. k.0) (same_key-eq j (key_of d) s), m), h.1)
  | inr s ↦ rw s (h.0, register-IsEntry given d r m (h.1))
]

merge-IsEntry :
    (given ds : List TaskDescriptor) (r : Registry)
    → ((d : TaskDescriptor) → IsAmong d ds → IsAmong d given)
    → All (IsEntry given) r
    → All (IsEntry given) (merge ds r)
unfolding merge
merge-IsEntry given [] r m h = h
merge-IsEntry given (d ∷ ds) r m h =
    merge-IsEntry given ds (register (key_of d) d r) (λ e n. m e (inr n))
      (register-IsEntry given d r (m d (inl refl)) h)

matches-All :
    (given : List TaskDescriptor) (task_id : String) (r : Registry)
    → All (IsEntry given) r
    → All (λ d. (d.id ≡ task_id) × IsAmong d given) (matches task_id r)
unfolding filter
matches-All given task_id [] h = tt
matches-All given task_id ((j, e) ∷ r) h = elim (Bool-cases ((j.0) == task_id)) [
  | inl s ↦
      rw s ((sym (h.0.0) ∙ (eq_iff (j.0) task_id).0 s, h.0.1), matches-All given task_id r (h.1))
  | inr s ↦ rw s (matches-All given task_id r (h.1))
]

-- What is found at a version of the task is one of the matches.
lookup-matches :
    (task_id : String) (version : ℤ) (d : TaskDescriptor) (r : Registry)
    → lookup (task_id, version) r ≡ some d
    → IsAmong d (matches task_id r)
unfolding lookup filter
lookup-matches task_id version d [] h = cc
lookup-matches task_id version d ((j, e) ∷ r) h =
    elim (Bool-cases (same_key j (task_id, version))) [
      | inl s ↦
          let found : e ≡ d = some_inj (rw s at h) in
          let k : (j.0) ≡ task_id = ap (λ k. k.0) (same_key-eq j (task_id, version) s) in
          rw (k, eq_refl task_id) (inl found)
      | inr s ↦
          let later = lookup-matches task_id version d r (rw s at h) in
          elim (Bool-cases ((j.0) == task_id)) [ inl t ↦ rw t (inr later) | inr t ↦ rw t later ]
    ]

-- A descriptor that was given stands for its key, or a later one does.
IsAmong-last_with :
    (d : TaskDescriptor) (ds : List TaskDescriptor)
    → IsAmong d ds
    → (e : TaskDescriptor) × (last_with (key_of d) ds ≡ some e) × (e.version ≡ d.version)
IsAmong-last_with d [] m = absurd m
IsAmong-last_with d (a ∷ ds) m = elim (Option-cases (last_with (key_of d) ds)) [
  | inr (e, s) ↦ (e, rw s refl, ap (λ k. k.1) (last_with-key (key_of d) e ds s))
  | inl n ↦ elim m [
    | inl same ↦
        let k : same_key (key_of a) (key_of d) ≡ true = rw same (same_key_refl (key_of d)) in
        (a, rw (n, k) refl, ap (λ e. e.version) same)
    | inr later ↦ let (e, s, v) = IsAmong-last_with d ds later in absurd (none-ne-some (sym n ∙ s))
  ]
]

-- The descriptor that a registry gives for a task without a version, among those it was made of.
abbrev pub IsLatest : String → Option TaskDescriptor → List TaskDescriptor → Type 0
IsLatest task_id none given = (e : TaskDescriptor) → IsAmong e given → e.id ≢ task_id
IsLatest task_id (some d) given =
    (d.id ≡ task_id)
    × IsAmong d given
    × ((e : TaskDescriptor) → IsAmong e given → e.id ≡ task_id → e.version ≤ℤ d.version)

module _ (builtin plugins : List TaskDescriptor) where
  abbrev given : List TaskDescriptor
  given = builtin ++ plugins

  -- Each descriptor that was given has one of its version among the matches.
  given-matches :
      (task_id : String) (e : TaskDescriptor)
      → IsAmong e given
      → e.id ≡ task_id
      → (f : TaskDescriptor) × IsAmong f (matches task_id (ensure_registry builtin plugins))
        × (f.version ≡ e.version)
  unfolding get_task_descriptor
  given-matches task_id e m same =
      let (f, l, v) = IsAmong-last_with e given m in
      let found : lookup (e.id, e.version) (ensure_registry builtin plugins) ≡ some f =
        get_task_descriptor-last_with e.id e.version builtin plugins ∙ l in
      (
        f,
        lookup-matches task_id e.version f (ensure_registry builtin plugins) (rw same at found),
        v,
      )

  newest-IsLatest :
      (task_id : String) (o : Option TaskDescriptor)
      → first (sort_by newer (matches task_id (ensure_registry builtin plugins))) ≡ o
      → IsLatest task_id o given
  newest-IsLatest task_id none h = λ e m same.
      let empty = (sort_by-nil_iff newer _).0 (first-none _ h) in
      let (f, a, v) = given-matches task_id e m same in rw empty at a
  newest-IsLatest task_id (some d) h =
      let newest = sort_by-IsNewest d (matches task_id (ensure_registry builtin plugins)) h in
      let entries = merge-IsEntry given given [] (λ x n. n) tt in
      let named =
        All-IsAmong _ d _ (matches-All given task_id (ensure_registry builtin plugins) entries)
          (newest.0) in
      (
        named.0,
        named.1,
        λ e m same.
            let (f, a, v) = given-matches task_id e m same in
            rw (← v) (All-IsAmong (λ x. x.version ≤ℤ d.version) f _ (newest.1) a),
      )

  -- Asked for a task without a version, the registry gives one of its descriptors of that task, and
  -- none of them is newer; it gives nothing only if it was given no descriptor of that task.
  pub get_task_descriptor-IsLatest :
      (task_id : String)
      → IsLatest task_id
          (get_task_descriptor task_id none (ensure_registry builtin plugins))
          (builtin ++ plugins)
  unfolding get_task_descriptor
  get_task_descriptor-IsLatest task_id = newest-IsLatest task_id _ refl
