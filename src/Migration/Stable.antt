-- ===== src/Migration/Stable.antt =====
-- The stable payload of an artifact whose trace is in order.
use tracecore.Prelude.{
  ◌≡◌, refl, sym, ◌∙◌, ap, subst, String, Bool, true, not, some, [], ◌∷◌, ◌==◌, eq_iff, any, filter,
  All, inl, inr, Bool-cases, Option-cases,
}
use tracecore.Prelude.Dict.{Dict, get}
use tracecore.Value.{
  Value, null, bool, int, str, list, dict, Items, nil, cons, to_list, of_list, get_or_null, as_list,
}
use tracecore.Spec.Parts.{IsEntry}
use tracecore.Exc.{Returns, >>=-Returns, ok, ◌>>=◌, map_result}
use tracecore.Migration.{
  volatile_fields, stable_entry, stable_trace, scrubbed, stable_with, stable_payload,
}
use tracecore.Migration.Sound.{IsTrace}

-- A filter by the key keeps what it accepts.
get-filter :
    (q : String → Bool) (k : String) (d : Dict Value)
    → q k ≡ true
    → get k (filter (λ e. q (e.0)) d) ≡ get k d
unfolding get filter
get-filter q k [] h = refl
get-filter q k ((j, v) ∷ d) h = elim (Bool-cases (j == k)) [
  | inl e ↦ let kept : q j ≡ true = ap q ((eq_iff j k).0 e) ∙ h in rw (kept, e) refl
  | inr e ↦ elim (Bool-cases (q j)) [
    | inl y ↦ rw (y, e) (get-filter q k d h)
    | inr n ↦ rw (n, e) (get-filter q k d h)
  ]
]

stable_entries :
    (vs : Items) → All IsEntry (to_list vs) → Returns (map_result stable_entry (to_list vs))
unfolding to_list map_result
stable_entries nil h = ([], refl)
stable_entries (cons (dict f) vs) h =
    let (ws, e) = stable_entries vs (h.1) in
    >>=-Returns (map_result stable_entry (to_list vs)) _ ws e (_, refl)
stable_entries (cons null vs) h = absurd (h.0)
stable_entries (cons (bool b) vs) h = absurd (h.0)
stable_entries (cons (int n) vs) h = absurd (h.0)
stable_entries (cons (str s) vs) h = absurd (h.0)
stable_entries (cons (list ws) vs) h = absurd (h.0)

get_or_null-list :
    (k : String) (d : Dict Value) (vs : Items)
    → get_or_null k d ≡ list vs
    → get k d ≡ some (list vs)
unfolding get_or_null
get_or_null-list k d vs t = elim (Option-cases (get k d)) [
  | inl n ↦ let bad : null ≡ list vs = rw (get_or_null, n) at t in cc
  | inr (v, s) ↦ let same : v ≡ list vs = rw (get_or_null, s) at t in s ∙ ap some same
]

pub stable_payload-Returns :
    (d : Dict Value) → IsTrace (get_or_null "action_trace" d) → Returns (stable_payload d)
unfolding stable_payload get_or_null as_list
stable_payload-Returns d (vs, t, h) =
    let keep : String → Bool = λ k. not (any (λ v. k == v) volatile_fields) in
    let same = get-filter keep "action_trace" d refl in
    let (ws, e) = stable_entries vs h in
    let made : Returns (stable_with (scrubbed d) (some (list vs))) =
      >>=-Returns (stable_trace (some (to_list vs))) _ (list (of_list ws))
        (ap (λ r. r >>= (λ x. ok (list (of_list x)))) e) (_, refl) in
    subst (λ o. Returns (stable_with (scrubbed d) o))
      (sym (same ∙ get_or_null-list "action_trace" d vs t)) made
