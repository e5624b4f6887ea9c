-- ===== src/Registry/Merged.antt =====
-- The registry after its descriptors were merged, by key.
use tracecore.Prelude.{
  ◌≡◌, refl, sym, ◌∙◌, ap, String, true, false, false≢true, Option, none, some, List, [], ◌∷◌, ◌++◌,
  ◌==◌, eq_iff, eq_refl, inl, inr, Bool-cases, Option-cases, arith, if◌then◌else◌,
}
use tracecore.Prelude.Int.{ℤ}
use tracecore.Value.Equality.{eq_int, eq_int_refl, eq_int-eq}
use tracecore.Registry.Descriptor.{TaskDescriptor}
use tracecore.Registry.Store.{
  Key, same_key, Registry, register, merge, ensure_registry, lookup, get_task_descriptor,
}

abbrev pub key_of : TaskDescriptor → Key
key_of d = (d.id, d.version)

-- The last descriptor of a list that has a key.
abbrev pub last_with : Key → List TaskDescriptor → Option TaskDescriptor
last_with k [] = none
last_with k (d ∷ ds) = elim (last_with k ds) [
  | none ↦ if same_key (key_of d) k then some d else none
  | some e ↦ some e
]

pub same_key_refl : (k : Key) → same_key k k ≡ true
same_key_refl (a, m) = rw (eq_refl a, eq_int_refl m) refl

pub same_key-eq : (j k : Key) → same_key j k ≡ true → j ≡ k
same_key-eq (a, m) (b, n) h =
    let s : (a == b) ≡ true = ground arith in
    let v : eq_int m n ≡ true = ground arith in rw ((eq_iff a b).0 s, eq_int-eq m n v) refl

pub some_inj : {a b : TaskDescriptor} → some a ≡ some b → a ≡ b
some_inj h = cc

apart : (i j k : Key) → same_key i j ≡ false → same_key i k ≡ true → same_key j k ≡ false
apart i j k s t = elim (Bool-cases (same_key j k)) [
  | inl u ↦
      let e : same_key i j ≡ true = rw (same_key-eq j k u) t in absurd (false≢true (sym s ∙ e))
  | inr u ↦ u
]

lookup-register :
    (j k : Key) (d : TaskDescriptor) (r : Registry)
    → lookup k (register j d r) ≡ (if same_key j k then some d else lookup k r)
unfolding lookup register
lookup-register j k d [] = refl
lookup-register j k d ((i, e) ∷ r) = elim (Bool-cases (same_key i j)) [
  | inl s ↦
      rw (s, same_key-eq i j s)
        (elim (Bool-cases (same_key j k)) [ inl t ↦ rw t refl | inr t ↦ rw t refl ])
  | inr s ↦ rw s (elim (Bool-cases (same_key i k)) [
    | inl t ↦ rw (t, apart i j k s t) refl
    | inr t ↦ rw t (lookup-register j k d r)
  ])
]

abbrev or_lookup : Option TaskDescriptor → Option TaskDescriptor → Option TaskDescriptor
or_lookup none other = other
or_lookup (some e) other = some e

lookup-merge :
    (k : Key) (ds : List TaskDescriptor) (r : Registry)
    → lookup k (merge ds r) ≡ or_lookup (last_with k ds) (lookup k r)
unfolding merge
lookup-merge k [] r = refl
lookup-merge k (d ∷ ds) r =
    let rest = lookup-merge k ds (register (key_of d) d r) in
    rest
    ∙ rw (lookup-register (key_of d) k d r) (elim (Option-cases (last_with k ds)) [
      | inl n ↦
          rw n (elim (Bool-cases (same_key (key_of d) k)) [ inl s ↦ rw s refl | inr s ↦ rw s refl ])
      | inr (e, s) ↦ rw s refl
    ])

pub last_with-key :
    (k : Key) (e : TaskDescriptor) (ds : List TaskDescriptor)
    → last_with k ds ≡ some e
    → key_of e ≡ k
last_with-key k e [] h = cc
last_with-key k e (d ∷ ds) h = elim (Option-cases (last_with k ds)) [
  | inr (f, s) ↦ last_with-key k e ds (s ∙ (rw s at h))
  | inl n ↦ elim (Bool-cases (same_key (key_of d) k)) [
    | inl s ↦
        let found : d ≡ e = some_inj (rw (n, s) at h) in
        ap key_of (sym found) ∙ same_key-eq (key_of d) k s
    | inr s ↦ let none_left : none ≡ some e = rw (n, s) at h in cc
  ]
]

-- The descriptor of a task at a version is the last one of that task and version, among the builtin
-- descriptors and then those of plugins: a plugin's descriptor takes the place of a builtin one.
pub get_task_descriptor-last_with :
    (task_id : String) (version : ℤ) (builtin plugins : List TaskDescriptor)
    → get_task_descriptor task_id (some version) (ensure_registry builtin plugins)
      ≡ last_with (task_id, version) (builtin ++ plugins)
unfolding get_task_descriptor lookup
get_task_descriptor-last_with task_id version builtin plugins =
    lookup-merge (task_id, version) (builtin ++ plugins) []
    ∙ elim (Option-cases (last_with (task_id, version) (builtin ++ plugins))) [
      | inl n ↦ rw n refl
      | inr (e, s) ↦ rw s refl
    ]
