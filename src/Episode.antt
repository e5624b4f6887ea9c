-- ===== src/Episode.antt =====
-- agent_bench/runner/episode_config.py: `EpisodeConfig` and `load_episode_config`. A number of
-- Python may be a boolean, so the seed and the timeout are kept as values. The text of a schema
-- version that is no text is a parameter, `str` of the value.
pub mod Reload
pub mod Budget
use tracecore.Prelude.{
  ℕ, String, Bool, true, false, not, ◌&&◌, Option, none, some, List, [], ◌∷◌, ◌==◌, eqb,
  if◌then◌else◌,
}
use tracecore.Prelude.Int.{ℤ, pos, negsuc}
use tracecore.Prelude.Dict.{Dict, get, put}
use tracecore.Value.{
  Value, Fields, null, bool, int, str, dict, end, field, obj, truthy, get_or_null, get_or, to_text,
  to_dict, as_dict,
}
use tracecore.Exc.{Result, ok, raised, ◌>>=◌, value_error}

pub record EpisodeConfig : Type 0 where
  pub agent : String
  pub task_ref : String
  pub seed : Value
  pub model : Option String
  pub provider : Option String
  pub budget_override : Fields
  pub wall_clock_timeout_s : Value
  pub metadata : Fields
  pub schema_version : String

-- `isinstance(v, int)`
abbrev pub is_int : Value → Bool
is_int (int n) = true
is_int (bool b) = true
is_int _ = false

-- `isinstance(v, int) and v > 0`
abbrev pub is_positive : Value → Bool
is_positive (int (pos n)) = not (eqb n 0)
is_positive (bool b) = b
is_positive _ = false

-- A text that is not empty.
abbrev pub required_text : String → Value → Result String
required_text key (str s) = if s == "" then raised (value_error key) else ok s
required_text key _ = raised (value_error key)

abbrev pub optional_text : String → Value → Result (Option String)
optional_text key null = ok none
optional_text key (str s) = ok (some s)
optional_text key _ = raised (value_error key)

abbrev pub required_int : String → Value → Result Value
required_int key v = if is_int v then ok v else raised (value_error key)

abbrev pub optional_int : String → Value → Result Value
optional_int key null = ok null
optional_int key (int n) = ok (int n)
optional_int key (bool b) = ok (bool b)
optional_int key _ = raised (value_error key)

-- `data.get(key) or {}`, which has to be a dict.
abbrev pub or_empty : String → Value → Result Fields
or_empty key (dict f) = ok f
or_empty key v = if truthy v then raised (value_error key) else ok end

unfoldable pub all_positive : Fields → Bool
all_positive end = true
all_positive (field k v f) = is_positive v && all_positive f

abbrev pub positive_fields : String → Fields → Result Fields
positive_fields key f = if all_positive f then ok f else raised (value_error key)

module _ (text_of : Value → String) where
  -- The dataclass once `data` is a dict, in the order of the source's checks.
  abbrev pub load_fields : Dict Value → Result EpisodeConfig
  load_fields d = do
    agent ← required_text "agent" (get_or_null "agent" d)
    task_ref ← required_text "task_ref" (get_or_null "task_ref" d)
    seed ← required_int "seed" (get_or "seed" (int (pos 0)) d)
    model ← optional_text "model" (get_or_null "model" d)
    provider ← optional_text "provider" (get_or_null "provider" d)
    override ← or_empty "budget_override" (get_or_null "budget_override" d)
    budget ← positive_fields "budget_override" override
    timeout ← optional_int "wall_clock_timeout_s" (get_or_null "wall_clock_timeout_s" d)
    metadata ← or_empty "metadata" (get_or_null "metadata" d)
    ok (record {
      agent = agent;
      task_ref = task_ref;
      seed = seed;
      model = model;
      provider = provider;
      budget_override = budget;
      wall_clock_timeout_s = timeout;
      metadata = metadata;
      schema_version = to_text text_of (get_or "schema_version" (str "1") d);
    })

  abbrev pub load_dict : Option (Dict Value) → Result EpisodeConfig
  load_dict none = raised (value_error "data")
  load_dict (some d) = load_fields d

  -- `load_episode_config`
  unfoldable pub load_episode_config : Value → Result EpisodeConfig
  load_episode_config data' = load_dict (as_dict data')

abbrev pub option_value : Option String → Value
option_value none = null
option_value (some s) = str s

-- `to_dict`
unfoldable pub config_dict : EpisodeConfig → Value
config_dict c = obj (
    ("agent", str c.agent)
    ∷ ("task_ref", str c.task_ref)
    ∷ ("seed", c.seed)
    ∷ ("model", option_value c.model)
    ∷ ("provider", option_value c.provider)
    ∷ ("budget_override", dict c.budget_override)
    ∷ ("wall_clock_timeout_s", c.wall_clock_timeout_s)
    ∷ ("metadata", dict c.metadata)
    ∷ ("schema_version", str c.schema_version)
    ∷ [])

-- The loop of `effective_budget`.
unfoldable pub merge_budget : Dict Value → Fields → Dict Value
merge_budget merged end = merged
merge_budget merged (field k v f) =
    merge_budget (if is_positive v then put k v merged else merged) f

-- `effective_budget`
unfoldable pub effective_budget : EpisodeConfig → Dict Value → Dict Value
unfolding merge_budget
effective_budget c task_default_budget = merge_budget task_default_budget c.budget_override
