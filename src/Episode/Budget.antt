-- ===== src/Episode/Budget.antt =====
-- The budget of an episode.
use tracecore.Prelude.{
  ◌≡◌, refl, ◌∙◌, String, true, Option, none, some, ◌==◌, eq_iff, Bool-cases, inl, inr, arith,
}
use tracecore.Prelude.Dict.{Dict, get, put, get-put}
use tracecore.Value.{Value, Fields, end, field}
use tracecore.Value.Equality.{find, IsValue, HasValues}
use tracecore.Episode.{EpisodeConfig, is_positive, all_positive, merge_budget, effective_budget}

abbrev pub overridden : Option Value → Option Value → Option Value
overridden none default = default
overridden (some v) default = some v

get-merge_budget :
    (k : String) (f : Fields) (base : Dict Value)
    → HasValues f
    → all_positive f ≡ true
    → get k (merge_budget base f) ≡ overridden (find k f) (get k base)
unfolding merge_budget all_positive IsValue
get-merge_budget k end base h p = refl
get-merge_budget k (field j v f) base h p =
    let now : is_positive v ≡ true = ground arith in
    let later : all_positive f ≡ true = ground arith in
    let rest = get-merge_budget k f (put j v base) h.2 later in
    rw now (elim (Bool-cases (j == k)) [
      | inl e ↦
          let here : find k f ≡ none = rw (← (eq_iff j k).0 e) h.0 in
          rest ∙ rw (here, get-put j k v base, e) refl
      | inr e ↦ rest ∙ rw (get-put j k v base, e) refl
    ])

-- With an override that was loaded, so that its keys differ and its values are positive, the budget
-- of the episode has at each key the override's entry, or else the entry of the task's default.
pub get-effective_budget :
    (c : EpisodeConfig) (base : Dict Value) (k : String)
    → HasValues c.budget_override
    → all_positive c.budget_override ≡ true
    → get k (effective_budget c base) ≡ overridden (find k c.budget_override) (get k base)
unfolding effective_budget
get-effective_budget c base k h p = get-merge_budget k c.budget_override base h p
