-- ===== src/Registry/Valid.antt =====
-- What it takes for a manifest to be valid.
use tracecore.Prelude.{
  ◌↔◌, ◌≡◌, refl, sym, ◌∙◌, String, Bool, true, false, false≢true, ◌||◌, List, [], ◌∷◌, ◌++◌,
  is_empty, is_empty_iff, append-nil_iff, Bool-cases, inl, inr, if◌then◌else◌,
}
use tracecore.Prelude.Dict.{Dict}
use tracecore.Value.{Value, null, bool, int, str, list, dict, to_dict, truthy, get_or_null, is_null}
use tracecore.Exc.{ok, raised}
use tracecore.Registry.Manifest.{
  Kind, text_kind, int_kind, bool_kind, is_kind, is_dict, is_text_list, Fault, typed_faults,
  sub_key, budget_faults, text_table, list_faults, sandbox_faults, manifest_faults,
  validate_task_manifest,
}

-- A key of a table with a type.
abbrev pub HasKey : Kind → String → Value → Type 0
HasKey kind key (dict f) = is_kind kind (get_or_null key (to_dict f)) ≡ true
HasKey kind key _ = ⊥

abbrev pub HasTexts : String → Value → Type 0
HasTexts key (dict f) = is_text_list (get_or_null key (to_dict f)) ≡ true
HasTexts key _ = ⊥

-- A deterministic task has both lists of its sandbox; another has a table or none.
abbrev pub HasSandbox : Bool → Value → Type 0
HasSandbox true v = HasTexts "filesystem_roots" v × HasTexts "network_hosts" v
HasSandbox false v = (is_null v || is_dict v) ≡ true

pub record IsManifest (raw : Dict Value) : Type 0 where
  pub id : is_kind text_kind (get_or_null "id" raw) ≡ true
  pub suite : is_kind text_kind (get_or_null "suite" raw) ≡ true
  pub version : is_kind int_kind (get_or_null "version" raw) ≡ true
  pub description : is_kind text_kind (get_or_null "description" raw) ≡ true
  pub deterministic : is_kind bool_kind (get_or_null "deterministic" raw) ≡ true
  pub seed_behavior : is_kind text_kind (get_or_null "seed_behavior" raw) ≡ true
  pub steps : HasKey int_kind "steps" (get_or_null "budgets" raw)
  pub tool_calls : HasKey int_kind "tool_calls" (get_or_null "budgets" raw)
  pub action_surface : HasKey text_kind "source" (get_or_null "action_surface" raw)
  pub validator : HasKey text_kind "entrypoint" (get_or_null "validator" raw)
  pub sandbox : HasSandbox (truthy (get_or_null "deterministic" raw)) (get_or_null "sandbox" raw)

-- A fault unless a condition holds.
unless_iff : (b : Bool) (f : Fault) → ((if b then [] else f ∷ []) ≡ []) ↔ (b ≡ true)
unless_iff true f = (λ h. refl, λ h. refl)
unless_iff false f = (λ h. cc, λ h. cc)

is_kind-null : (kind : Kind) → is_kind kind null ≡ false
is_kind-null text_kind = refl
is_kind-null int_kind = refl
is_kind-null bool_kind = refl

typed_faults_iff :
    (key : String) (kind : Kind) (v : Value)
    → (typed_faults key kind v ≡ []) ↔ (is_kind kind v ≡ true)
typed_faults_iff key kind null = (λ h. cc, λ h. absurd (false≢true (sym (is_kind-null kind) ∙ h)))
typed_faults_iff key kind (str s) = unless_iff (is_kind kind (str s)) _
typed_faults_iff key kind (bool b) = unless_iff (is_kind kind (bool b)) _
typed_faults_iff key kind (int n) = unless_iff (is_kind kind (int n)) _
typed_faults_iff key kind (list vs) = unless_iff (is_kind kind (list vs)) _
typed_faults_iff key kind (dict f) = unless_iff (is_kind kind (dict f)) _

budget_faults_iff :
    (v : Value)
    → (budget_faults v ≡ []) ↔ (HasKey int_kind "steps" v × HasKey int_kind "tool_calls" v)
budget_faults_iff (dict f) =
    let a =
      append-nil_iff (sub_key "budgets" "steps" int_kind (to_dict f))
        (sub_key "budgets" "tool_calls" int_kind (to_dict f)) in
    let s = unless_iff (is_kind int_kind (get_or_null "steps" (to_dict f))) _ in
    let t = unless_iff (is_kind int_kind (get_or_null "tool_calls" (to_dict f))) _ in
    (λ h. (s.0 ((a.0 h).0), t.0 ((a.0 h).1)), λ h. a.1 (s.1 (h.0), t.1 (h.1)))
budget_faults_iff null = (λ h. cc, λ h. absurd (h.0))
budget_faults_iff (str s) = (λ h. cc, λ h. absurd (h.0))
budget_faults_iff (bool b) = (λ h. cc, λ h. absurd (h.0))
budget_faults_iff (int n) = (λ h. cc, λ h. absurd (h.0))
budget_faults_iff (list vs) = (λ h. cc, λ h. absurd (h.0))

text_table_iff :
    (table key : String) (v : Value) → (text_table table key v ≡ []) ↔ HasKey text_kind key v
text_table_iff table key (dict f) = unless_iff (is_kind text_kind (get_or_null key (to_dict f))) _
text_table_iff table key null = (λ h. cc, λ h. absurd h)
text_table_iff table key (str s) = (λ h. cc, λ h. absurd h)
text_table_iff table key (bool b) = (λ h. cc, λ h. absurd h)
text_table_iff table key (int n) = (λ h. cc, λ h. absurd h)
text_table_iff table key (list vs) = (λ h. cc, λ h. absurd h)

sandbox_faults_iff : (b : Bool) (v : Value) → (sandbox_faults b v ≡ []) ↔ HasSandbox b v
sandbox_faults_iff false v = unless_iff (is_null v || is_dict v) _
sandbox_faults_iff true (dict f) =
    let fs = get_or_null "filesystem_roots" (to_dict f) in
    let net = get_or_null "network_hosts" (to_dict f) in
    let a = append-nil_iff (list_faults "filesystem_roots" fs) (list_faults "network_hosts" net) in
    let s = unless_iff (is_text_list fs) _ in
    let t = unless_iff (is_text_list net) _ in
    (λ h. (s.0 ((a.0 h).0), t.0 ((a.0 h).1)), λ h. a.1 (s.1 (h.0), t.1 (h.1)))
sandbox_faults_iff true null = (λ h. cc, λ h. absurd (h.0))
sandbox_faults_iff true (str s) = (λ h. cc, λ h. absurd (h.0))
sandbox_faults_iff true (bool b) = (λ h. cc, λ h. absurd (h.0))
sandbox_faults_iff true (int n) = (λ h. cc, λ h. absurd (h.0))
sandbox_faults_iff true (list vs) = (λ h. cc, λ h. absurd (h.0))

-- The faults of ten parts.
appended_iff :
    (a b c d e f g h i j : List Fault)
    → (a ++ b ++ c ++ d ++ e ++ f ++ g ++ h ++ i ++ j ≡ []) ↔ (
        (a ≡ [])
        × (b ≡ [])
        × (c ≡ [])
        × (d ≡ [])
        × (e ≡ [])
        × (f ≡ [])
        × (g ≡ [])
        × (h ≡ [])
        × (i ≡ [])
        × (j ≡ []))
appended_iff [] [] [] [] [] [] [] [] [] j =
    (λ p. (refl, refl, refl, refl, refl, refl, refl, refl, refl, p), λ p. p.9)
appended_iff [] [] [] [] [] [] [] [] (x ∷ i) j = (λ p. cc, λ p. cc)
appended_iff [] [] [] [] [] [] [] (x ∷ h) i j = (λ p. cc, λ p. cc)
appended_iff [] [] [] [] [] [] (x ∷ g) h i j = (λ p. cc, λ p. cc)
appended_iff [] [] [] [] [] (x ∷ f) g h i j = (λ p. cc, λ p. cc)
appended_iff [] [] [] [] (x ∷ e) f g h i j = (λ p. cc, λ p. cc)
appended_iff [] [] [] (x ∷ d) e f g h i j = (λ p. cc, λ p. cc)
appended_iff [] [] (x ∷ c) d e f g h i j = (λ p. cc, λ p. cc)
appended_iff [] (x ∷ b) c d e f g h i j = (λ p. cc, λ p. cc)
appended_iff (x ∷ a) b c d e f g h i j = (λ p. cc, λ p. cc)

manifest_faults_iff : (raw : Dict Value) → (manifest_faults raw ≡ []) ↔ IsManifest raw
unfolding manifest_faults
manifest_faults_iff raw =
    let parts = appended_iff _ _ _ _ _ _ _ _ _ _ in
    let key = λ (k : String) (kind : Kind). typed_faults_iff k kind (get_or_null k raw) in
    let budget = budget_faults_iff (get_or_null "budgets" raw) in
    let surface = text_table_iff "action_surface" "source" (get_or_null "action_surface" raw) in
    let entry = text_table_iff "validator" "entrypoint" (get_or_null "validator" raw) in
    let box =
      sandbox_faults_iff (truthy (get_or_null "deterministic" raw)) (get_or_null "sandbox" raw) in
    (
      λ h.
          let (a, b, c, d, e, f, g, s, v, x) = parts.0 h in
          record {
            id = (key "id" text_kind).0 a;
            suite = (key "suite" text_kind).0 b;
            version = (key "version" int_kind).0 c;
            description = (key "description" text_kind).0 d;
            deterministic = (key "deterministic" bool_kind).0 e;
            seed_behavior = (key "seed_behavior" text_kind).0 f;
            steps = (budget.0 g).0;
            tool_calls = (budget.0 g).1;
            action_surface = surface.0 s;
            validator = entry.0 v;
            sandbox = box.0 x;
          },
      λ m. parts.1 (
        (key "id" text_kind).1 m.id,
        (key "suite" text_kind).1 m.suite,
        (key "version" int_kind).1 m.version,
        (key "description" text_kind).1 m.description,
        (key "deterministic" bool_kind).1 m.deterministic,
        (key "seed_behavior" text_kind).1 m.seed_behavior,
        budget.1 (m.steps, m.tool_calls),
        surface.1 m.action_surface,
        entry.1 m.validator,
        box.1 m.sandbox,
      ),
    )

-- A manifest is accepted exactly when its fields have their types; its budgets have steps and tool
-- calls that are integers; its action surface and its validator name a text; and its sandbox, if the
-- task is deterministic, has both lists of texts, and otherwise is a table if it is there.
pub validate_task_manifest_iff :
    (raw : Dict Value) → (validate_task_manifest raw ≡ ok tt) ↔ IsManifest raw
unfolding validate_task_manifest
validate_task_manifest_iff raw =
    let m = manifest_faults_iff raw in
    let e = is_empty_iff (manifest_faults raw) in
    (
      λ h. elim (Bool-cases (is_empty (manifest_faults raw))) [
        | inl y ↦ m.0 (e.0 y)
        | inr n ↦ let other : raised _ ≡ ok tt = rw n at h in cc
      ],
      λ h. rw (e.1 (m.1 h)) refl,
    )
