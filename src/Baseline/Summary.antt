-- ===== src/Baseline/Summary.antt =====
-- `_Bucket`, `_extract_metric` and `summarize_runs`. A run whose agent or task is no text is taken for
-- one that has none, and a time of completion that is no text likewise.
use tracecore.Prelude.{
  ℕ, ◌+◌, String, Bool, true, false, not, ◌&&◌, Option, none, some, List, [], ◌∷◌, ◌==◌, map, eqb,
  if◌then◌else◌,
}
use tracecore.Prelude.Int.{ℤ, pos, ◌+ℤ◌}
use tracecore.Prelude.Dict.{Dict, get}
use tracecore.Prelude.Sort.{sort_by, text_leb}
use tracecore.Value.{Value, null, bool, int, dict, to_dict, truthy, get_or_null, as_str}
use tracecore.Exc.{Result, ok, raised, ◌>>=◌, attribute_error}

pub record Bucket : Type 0 where
  pub count : ℕ
  pub successes : ℕ
  pub steps_sum : ℤ
  pub steps_count : ℕ
  pub tools_sum : ℤ
  pub tools_count : ℕ
  pub last_run_id : Value
  pub last_completed_at : Option String
  pub last_success : Option Bool
  pub last_seed : Value

abbrev pub new_bucket : Bucket
new_bucket = record {
  count = 0;
  successes = 0;
  steps_sum = pos 0;
  steps_count = 0;
  tools_sum = pos 0;
  tools_count = 0;
  last_run_id = null;
  last_completed_at = none;
  last_success = none;
  last_seed = null;
}

-- `isinstance(value, (int, float))`
abbrev pub number : Value → Option ℤ
number (int n) = some n
number (bool true) = some (pos 1)
number (bool false) = some (pos 0)
number _ = none

-- `payload.get("metrics", {}).get(key)`
abbrev metrics_value : String → Option Value → Result Value
metrics_value key none = ok null
metrics_value key (some (dict f)) = ok (get_or_null key (to_dict f))
metrics_value key (some v) = raised (attribute_error "get")

abbrev pub extract_metric : Dict Value → String → Result (Option ℤ)
extract_metric payload key = elim (number (get_or_null key payload)) [
  | some n ↦ ok (some n)
  | none ↦ do v ← metrics_value key (get "metrics" payload); ok (number v)
]

abbrev pub add_steps : Option ℤ → Bucket → Bucket
add_steps none b = b
add_steps (some n) b = record b { steps_sum = b.steps_sum +ℤ n; steps_count = b.steps_count + 1 }

abbrev pub add_tools : Option ℤ → Bucket → Bucket
add_tools none b = b
add_tools (some n) b = record b { tools_sum = b.tools_sum +ℤ n; tools_count = b.tools_count + 1 }

-- `completed_at > last`, or there is none.
abbrev is_later : String → Option String → Bool
is_later completed_at none = true
is_later completed_at (some last) = not (text_leb completed_at last)

abbrev pub completed_text : Value → Option String
completed_text v = if truthy v then as_str v else none

abbrev pub add_last : Dict Value → Option String → Bucket → Bucket
add_last run none b = b
add_last run (some completed_at) b =
    if is_later completed_at b.last_completed_at
    then record b {
      last_completed_at = some completed_at;
      last_run_id = get_or_null "run_id" run;
      last_success = some (truthy (get_or_null "success" run));
      last_seed = get_or_null "seed" run;
    }
    else b

abbrev pub counted : Dict Value → Bucket → Bucket
counted run b = record b {
  count = b.count + 1;
  successes = if truthy (get_or_null "success" run) then b.successes + 1 else b.successes;
}

-- A run is added to its bucket.
unfoldable pub add_run : Dict Value → Bucket → Result Bucket
add_run run b = do
  steps ← extract_metric run "steps_used"
  tool_calls ← extract_metric run "tool_calls_used"
  ok (
      add_last run (completed_text (get_or_null "completed_at" run))
        (add_tools tool_calls (add_steps steps (counted run b))))

abbrev pub Key : Type 0
Key = String × String

abbrev pub same_key : Key → Key → Bool
same_key (a, t) (b, u) = a == b && t == u

abbrev pub Buckets : Type 0
Buckets = List (Key × Bucket)

-- The agent and the task of a run, if it has both.
abbrev text_of : Value → Option String
text_of v = if truthy v then as_str v else none

abbrev key_with : Option String → Option String → Option Key
key_with (some a) (some t) = some (a, t)
key_with _ _ = none

abbrev pub key_of : Dict Value → Option Key
key_of run = key_with (text_of (get_or_null "agent" run)) (text_of (get_or_null "task_ref" run))

-- `buckets.setdefault(key, _Bucket())`
unfoldable pub bucket_at : Key → Buckets → Bucket
bucket_at k [] = new_bucket
bucket_at k ((j, b) ∷ bs) = if same_key j k then b else bucket_at k bs

unfoldable pub set_bucket : Key → Bucket → Buckets → Buckets
set_bucket k b [] = (k, b) ∷ []
set_bucket k b ((j, c) ∷ bs) =
    let rest = set_bucket k b bs in if same_key j k then (j, b) ∷ bs else (j, c) ∷ rest

abbrev pub add_keyed : Option Key → Dict Value → Buckets → Result Buckets
add_keyed none run bs = ok bs
add_keyed (some k) run bs = do b ← add_run run (bucket_at k bs); ok (set_bucket k b bs)

-- The loop over the runs.
unfoldable pub collect : List (Dict Value) → Buckets → Result Buckets
collect [] bs = ok bs
collect (run ∷ runs) bs = do cs ← add_keyed (key_of run) run bs; collect runs cs

-- A sum and a count that is not zero.
abbrev pub ratio : ℤ → ℕ → Option (ℤ × ℕ)
ratio sum n = if eqb n 0 then none else some (sum, n)

-- `successes / count if count else 0.0`
abbrev pub rate_of : ℕ → ℕ → ℤ × ℕ
rate_of successes count = if eqb count 0 then (pos 0, 1) else (pos successes, count)

pub record Row : Type 0 where
  pub agent : String
  pub task_ref : String
  pub runs : ℕ
  pub success_rate : ℤ × ℕ
  pub avg_steps : Option (ℤ × ℕ)
  pub avg_tool_calls : Option (ℤ × ℕ)
  pub last_run_id : Value
  pub last_completed_at : Option String
  pub last_success : Option Bool
  pub last_seed : Value

abbrev pub row_of : Key × Bucket → Row
row_of ((a, t), b) = record {
  agent = a;
  task_ref = t;
  runs = b.count;
  success_rate = rate_of b.successes b.count;
  avg_steps = ratio b.steps_sum b.steps_count;
  avg_tool_calls = ratio b.tools_sum b.tools_count;
  last_run_id = b.last_run_id;
  last_completed_at = b.last_completed_at;
  last_success = b.last_success;
  last_seed = b.last_seed;
}

-- The order of the keys.
abbrev pub earlier : Key × Bucket → Key × Bucket → Bool
earlier ((a, t), b) ((c, u), d) = if a == c then text_leb t u else text_leb a c

unfoldable pub summarize_runs : List (Dict Value) → Result (List Row)
summarize_runs runs = do bs ← collect runs []; ok (map row_of (sort_by earlier bs))
