-- ===== src/Exc.antt =====
-- What the modelled code raises, and calls that return or raise. The text of a message is not
-- modelled: a constructor carries what the message is built from.
use tracecore.Prelude.{ℕ, String, List, [], ◌∷◌, ◌++◌, ◌≡◌, refl, ap, ◌∙◌, ◌⊎◌, inl, inr, ◌↔◌}

-- `SandboxViolation` of agent_bench/env/environment.py, by the place that raises it.
pub data Violation : Type 0 where
  forbidden_access : Violation
  invalid_path : String → Violation
  fs_denied : String → List String → Violation
  scheme_denied : String → Violation
  port_denied : ℕ → Violation
  net_denied : String → Violation

pub data Exc : Type 0 where
  sandbox_violation : Violation → Exc
  value_error key_error runtime_error type_error attribute_error file_not_found : String → Exc

pub data Result {ℓ} (A : Type ℓ) : Type ℓ where
  ok : A → Result A
  raised : Exc → Result A

infixl 10 ◌>>=◌
abbrev pub ◌>>=◌ {ℓ κ} : {A : Type ℓ} {B : Type κ} → Result A → (A → Result B) → Result B
ok a >>= f = f a
raised e >>= f = raised e

-- A call for each item, in order, up to the first that raises.
unfoldable pub map_result {ℓ κ} :
    {A : Type ℓ} {B : Type κ} → (A → Result B) → List A → Result (List B)
map_result f [] = ok []
map_result f (a ∷ xs) = do b ← f a; bs ← map_result f xs; ok (b ∷ bs)

-- To split on a computed result and keep the equation.
pub Result-cases {ℓ} :
    {A : Type ℓ} (r : Result A) → ((a : A) × (r ≡ ok a)) ⊎ ((e : Exc) × (r ≡ raised e))
Result-cases (ok a) = inl (a, refl)
Result-cases (raised e) = inr (e, refl)

pub ok_inj {ℓ} : {A : Type ℓ} {a b : A} → ok a ≡ ok b → a ≡ b
ok_inj e = cc

pub ok-ne-raised {ℓ} : {A : Type ℓ} {a : A} {e : Exc} → ok a ≡ raised e → ⊥
ok-ne-raised h = cc

-- What a chain of calls that returns went through.
pub >>=-eq-ok {ℓ κ} :
    {A : Type ℓ} {B : Type κ} (r : Result A) (f : A → Result B) {b : B}
    → (r >>= f) ≡ ok b
    → (a : A) × (r ≡ ok a) × (f a ≡ ok b)
>>=-eq-ok (ok a) f h = (a, refl, h)
>>=-eq-ok (raised e) f h = cc

-- A call that returns.
abbrev pub Returns {ℓ} : {A : Type ℓ} → Result A → Type ℓ
Returns {A = A} r = (a : A) × (r ≡ ok a)

pub >>=-Returns {ℓ κ} :
    {A : Type ℓ} {B : Type κ} (r : Result A) (f : A → Result B) (a : A)
    → r ≡ ok a
    → Returns (f a)
    → Returns (r >>= f)
>>=-Returns r f a e (b, h) = (b, ap (λ x. x >>= f) e ∙ h)

-- Two calls that each find something find nothing together exactly when neither does.
pub found-append_iff {ℓ} :
    {A : Type ℓ} (r q : Result (List A))
    → ((do es ← r; fs ← q; ok (es ++ fs)) ≡ ok []) ↔ ((r ≡ ok []) × (q ≡ ok []))
found-append_iff (ok []) (ok fs) = (λ h. (refl, h), λ h. h.1)
found-append_iff (ok (e ∷ es)) (ok fs) = (λ h. cc, λ h. cc)
found-append_iff (ok es) (raised x) = (λ h. cc, λ h. cc)
found-append_iff (raised x) q = (λ h. cc, λ h. cc)
