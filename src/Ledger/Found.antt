-- ===== src/Ledger/Found.antt =====
-- What `get_entry` finds.
use tracecore.Prelude.{
  String, ◌≡◌, refl, ap, true, false, Option, none, some, List, [], ◌∷◌, ◌++◌, All, Bool-cases, inl,
  inr,
}
use tracecore.Prelude.Dict.{Dict}
use tracecore.Prelude.Text.{strip}
use tracecore.Value.{Value}
use tracecore.Exc.{ok, ok_inj, >>=-eq-ok}
use tracecore.Ledger.{registry_entries, entry_matches, first_match, get_entry}

abbrev pub Matches : String → Value → Type 0
Matches needle entry = entry_matches needle entry ≡ ok true

abbrev pub Differs : String → Value → Type 0
Differs needle entry = entry_matches needle entry ≡ ok false

-- The entry stands among the entries, matches, and stands behind none that matches.
pub data IsFirst (needle : String) (entries : List Value) : Option Value → Type 0 where
  found :
      (before after : List Value) (entry : Value)
      → entries ≡ before ++ entry ∷ after
      → All (Differs needle) before
      → Matches needle entry
      → IsFirst needle entries (some entry)
  missing : All (Differs needle) entries → IsFirst needle entries none

IsFirst-cons :
    (needle : String) (e : Value) (entries : List Value) (o : Option Value)
    → Differs needle e
    → IsFirst needle entries o
    → IsFirst needle (e ∷ entries) o
IsFirst-cons needle e entries none d (missing a) = missing (d, a)
IsFirst-cons needle e entries (some v) d (found before after entry q a m) =
    found (e ∷ before) after v (ap (λ es. e ∷ es) q) (d, a) m

first_match-IsFirst :
    (needle : String) (entries : List Value) (o : Option Value)
    → first_match needle entries ≡ ok o
    → IsFirst needle entries o
unfolding first_match
first_match-IsFirst needle [] o h = rw (← ok_inj h) (missing tt)
first_match-IsFirst needle (e ∷ entries) o h =
    let (b, m, rest) = >>=-eq-ok (entry_matches needle e) _ h in
    elim (Bool-cases b) [
      | inl t ↦
          let q : some e ≡ o = ok_inj (rw t at rest) in
          rw (← q) (found [] entries e refl tt (rw t at m))
      | inr t ↦
          IsFirst-cons needle e entries o (rw t at m)
            (first_match-IsFirst needle entries o (rw t at rest))
    ]

-- Where `get_entry` returns, it gives the first entry of the registry that matches, by its path or
-- by the stem of its path; and nothing only if no entry matches.
pub get_entry-IsFirst :
    (agent : String) (registry : Dict Value) (o : Option Value)
    → get_entry agent registry ≡ ok o
    → (entries : List Value) × (registry_entries registry ≡ ok entries)
      × IsFirst (strip agent) entries o
unfolding get_entry
get_entry-IsFirst agent registry o h =
    let (entries, e, f) = >>=-eq-ok (registry_entries registry) _ h in
    (entries, e, first_match-IsFirst (strip agent) entries o f)
