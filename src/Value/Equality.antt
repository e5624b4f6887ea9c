-- ===== src/Value/Equality.antt =====
-- Python's `==` on values: a boolean equals the number that it stands for, and two dicts are
-- equal when they have as many keys and hold equal values at each, in whatever order.
use tracecore.Prelude.{
  ℕ, suc, ◌≡◌, refl, ap, String, Bool, true, false, ◌&&◌, Option, none, some, arith, eqb, ◌==◌,
  eq_iff, eq_refl, if◌then◌else◌,
}
use tracecore.Prelude.Int.{ℤ, pos, negsuc}
use tracecore.Value.{Value, Items, Fields, null, bool, int, str, list, dict, nil, cons, end, field}

unfoldable pub eq_int : ℤ → ℤ → Bool
eq_int (pos a) (pos b) = eqb a b
eq_int (negsuc a) (negsuc b) = eqb a b
eq_int _ _ = false

-- `True` and `False` as numbers.
abbrev bit : Bool → ℤ
bit true = pos 1
bit false = pos 0

abbrev pub find : String → Fields → Option Value
find k end = none
find k (field j v f) = if j == k then some v else find k f

abbrev pub size : Fields → ℕ
size end = 0
size (field k v f) = suc (size f)

unfoldable mutual
  unfolding eq_int

  pub value_eq : Value → Value → Bool
  value_eq null null = true
  value_eq (bool a) (bool b) = eq_int (bit a) (bit b)
  value_eq (bool a) (int b) = eq_int (bit a) b
  value_eq (int a) (bool b) = eq_int a (bit b)
  value_eq (int a) (int b) = eq_int a b
  value_eq (str s) (str t) = s == t
  value_eq (list xs) (list ys) = eq_items xs ys
  value_eq (dict f) (dict g) = eqb (size f) (size g) && eq_fields f g
  value_eq _ _ = false

  pub eq_items : Items → Items → Bool
  eq_items nil nil = true
  eq_items (cons x xs) (cons y ys) = value_eq x y && eq_items xs ys
  eq_items _ _ = false

  -- Every entry of the first dict has an equal one in the second.
  pub eq_fields : Fields → Fields → Bool
  eq_fields end g = true
  eq_fields (field k v f) g =
      elim (find k g) [ none ↦ false | some w ↦ value_eq v w ] && eq_fields f g

-- A Python dict holds a key once.
unfoldable mutual
  pub IsValue : Value → Type 0
  IsValue (list xs) = AreValues xs
  IsValue (dict f) = HasValues f
  IsValue _ = Unit

  pub AreValues : Items → Type 0
  AreValues nil = Unit
  AreValues (cons x xs) = IsValue x × AreValues xs

  pub HasValues : Fields → Type 0
  HasValues end = Unit
  HasValues (field k v f) = (find k f ≡ none) × IsValue v × HasValues f

pub eq_int_refl : (a : ℤ) → eq_int a a ≡ true
unfolding eq_int
eq_int_refl (pos n) = ground arith
eq_int_refl (negsuc n) = ground arith

-- Every entry of the first is found in the second.
abbrev Within : Fields → Fields → Type 0
Within end g = Unit
Within (field k v f) g = (find k g ≡ some v) × Within f g

Within-field :
    (j : String) (w : Value) (f g : Fields) → find j f ≡ none → Within f g → Within f (field j w g)
Within-field j w end g n h = tt
Within-field j w (field k v f) g n h =
    (ground (arith, eq_iff k j, eq_iff j k), Within-field j w f g (ground (arith, eq_iff k j)) h.1)

Within-self : (f : Fields) → HasValues f → Within f f
unfolding IsValue
Within-self end h = tt
Within-self (field k v f) h =
    (ground (arith, eq_refl k), Within-field k v f f h.0 (Within-self f h.2))

mutual
  unfolding value_eq IsValue

  pub eq_refl-value : (v : Value) → IsValue v → value_eq v v ≡ true
  eq_refl-value null h = refl
  eq_refl-value (bool b) h = eq_int_refl (bit b)
  eq_refl-value (int a) h = eq_int_refl a
  eq_refl-value (str s) h = eq_refl s
  eq_refl-value (list xs) h = eq_refl-items xs h
  eq_refl-value (dict f) h = ground (arith, eq_refl-fields f f h (Within-self f h))

  pub eq_refl-items : (xs : Items) → AreValues xs → eq_items xs xs ≡ true
  eq_refl-items nil h = refl
  eq_refl-items (cons x xs) h = ground (arith, eq_refl-value x h.0, eq_refl-items xs h.1)

  pub eq_refl-fields : (f g : Fields) → HasValues f → Within f g → eq_fields f g ≡ true
  eq_refl-fields end g h w = refl
  eq_refl-fields (field k v f) g h w =
      rw w.0 (ground (arith, eq_refl-value v h.1, eq_refl-fields f g h.2 w.1))

-- A value with no dict that holds a key twice is equal to itself, as Python compares: `value_eq`
-- finds every key of a dict in the other, and counts the keys.
pub value_eq_refl : (v : Value) → IsValue v → value_eq v v ≡ true
value_eq_refl v h = eq_refl-value v h

pub eq_int-eq : (a b : ℤ) → eq_int a b ≡ true → a ≡ b
unfolding eq_int
eq_int-eq (pos m) (pos n) h = ap pos (ground arith)
eq_int-eq (negsuc m) (negsuc n) h = ap negsuc (ground arith)
eq_int-eq (pos m) (negsuc n) h = cc
eq_int-eq (negsuc m) (pos n) h = cc

pub value_eq-str : (v : Value) (t : String) → value_eq v (str t) ≡ true → v ≡ str t
unfolding value_eq
value_eq-str (str s) t h = ap str ((eq_iff s t).0 h)
value_eq-str null t h = cc
value_eq-str (bool b) t h = cc
value_eq-str (int n) t h = cc
value_eq-str (list vs) t h = cc
value_eq-str (dict f) t h = cc
