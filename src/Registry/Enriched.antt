-- ===== src/Registry/Enriched.antt =====
-- What a manifest may change of a descriptor.
use tracecore.Prelude.{
  ◌≡◌, refl, sym, ◌∙◌, subst, String, true, false, false≢true, some, [], is_empty, Bool-cases, inl,
  inr,
}
use tracecore.Prelude.Int.{ℤ}
use tracecore.Prelude.Dict.{Dict, contains}
use tracecore.Value.{Value, obj, get_or_null}
use tracecore.Value.Defaults.{contains-set_default, set_default-keeps}
use tracecore.Exc.{Result, ok, ok_inj, ok-ne-raised, >>=-eq-ok}
use tracecore.Registry.Manifest.{load_task_manifest}
use tracecore.Registry.Descriptor.{
  TaskDescriptor, disagrees, completed, same_version, described, enrich_from, enrich_descriptor,
}

-- The identity of a task stays, and what the loader reads from its metadata is there.
pub record IsEnriched (d e : TaskDescriptor) : Type 0 where
  pub id : e.id ≡ d.id
  pub suite : e.suite ≡ d.suite
  pub version : e.version ≡ d.version
  pub path : e.path ≡ d.path
  pub sandbox : contains "sandbox" e.metadata ≡ true
  pub default_budget : contains "default_budget" e.metadata ≡ true

completed-IsEnriched : (d : TaskDescriptor) → IsEnriched d (completed d)
completed-IsEnriched d = record {
  id = refl;
  suite = refl;
  version = refl;
  path = refl;
  sandbox =
      set_default-keeps "default_budget" "sandbox" (obj []) _
        (contains-set_default "sandbox" _ d.metadata);
  default_budget = contains-set_default "default_budget" (obj []) _;
}

module _ (text_of : Value → String) (int_of : Value → Result ℤ) where
  -- A manifest that agrees with the registry on what it says of the task.
  pub record AgreesWith (manifest : Dict Value) (d : TaskDescriptor) : Type 0 where
    pub same_id : disagrees (get_or_null "id" manifest) d.id ≡ false
    pub same_suite : disagrees (get_or_null "suite" manifest) d.suite ≡ false
    pub version_agrees :
        same_version text_of int_of (get_or_null "version" manifest) d.version ≡ ok true

  described-IsEnriched :
      (manifest : Dict Value) (d : TaskDescriptor)
      → IsEnriched d (completed (described text_of int_of manifest d))
  described-IsEnriched manifest d =
      let e = completed-IsEnriched (described text_of int_of manifest d) in
      record {
        id = e.id;
        suite = e.suite;
        version = e.version;
        path = e.path;
        sandbox = e.sandbox;
        default_budget = e.default_budget;
      }

  enrich_from-eq-ok :
      (manifest : Dict Value) (d e : TaskDescriptor)
      → enrich_from text_of int_of manifest d ≡ ok e
      → AgreesWith manifest d × (completed (described text_of int_of manifest d) ≡ e)
  enrich_from-eq-ok manifest d e h =
      elim (Bool-cases (disagrees (get_or_null "id" manifest) d.id)) [
        | inl i ↦ absurd (ok-ne-raised (sym (rw i at h)))
        | inr i ↦ elim (Bool-cases (disagrees (get_or_null "suite" manifest) d.suite)) [
          | inl s ↦ absurd (ok-ne-raised (sym (rw (i, s) at h)))
          | inr s ↦
              let (same, v, r) =
                >>=-eq-ok (same_version text_of int_of (get_or_null "version" manifest) d.version) _
                  (rw (i, s) at h) in
              elim (Bool-cases same) [
                | inl t ↦ (
                  record { same_id = i; same_suite = s; version_agrees = rw t at v },
                  ok_inj (rw t at r),
                )
                | inr t ↦ absurd (ok-ne-raised (sym (rw t at r)))
              ]
        ]
      ]

  -- What `_enrich_descriptor` returns has the identifier, the suite, the version and the path that the
  -- registry gave, and metadata with a sandbox and a default budget. When the task's directory has a
  -- manifest, the manifest agrees with that identity.
  pub enrich_descriptor-IsEnriched :
      (toml_data yaml_data : Dict Value) (d e : TaskDescriptor)
      → enrich_descriptor text_of int_of (some (toml_data, yaml_data)) d ≡ ok e
      → IsEnriched d e
        × ((manifest : Dict Value) × (load_task_manifest text_of toml_data yaml_data ≡ ok manifest)
            × (is_empty manifest ≡ false → AgreesWith manifest d))
  unfolding enrich_descriptor
  enrich_descriptor-IsEnriched toml_data yaml_data d e h =
      let (manifest, l, r) = >>=-eq-ok (load_task_manifest text_of toml_data yaml_data) _ h in
      elim (Bool-cases (is_empty manifest)) [
        | inl n ↦ (
          subst (IsEnriched d) (ok_inj (rw n at r)) (completed-IsEnriched d),
          (manifest, l, λ f. absurd (false≢true (sym f ∙ n))),
        )
        | inr n ↦
            let (agrees, same) = enrich_from-eq-ok manifest d e (rw n at r) in
            (
              subst (IsEnriched d) same (described-IsEnriched manifest d),
              (manifest, l, λ f. agrees),
            )
      ]
