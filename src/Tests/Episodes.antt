-- ===== src/Tests/Episodes.antt =====
-- The configuration of an episode.
use tracecore.Prelude.{refl, ◌≡◌, String, none, [], ◌∷◌}
use tracecore.Prelude.Int.{pos}
use tracecore.Prelude.Dict.{get}
use tracecore.Value.{Value, null, int, str, obj, of_dict, as_dict, to_dict, get_or_null, truthy}
use tracecore.Exc.{ok}
use tracecore.Episode.{EpisodeConfig, load_episode_config, config_dict, all_positive}
use tracecore.Episode.Reload.{load_episode_config-config_dict}

abbrev text_of : Value → String
text_of v = "1"

abbrev data_in : Value
data_in = obj (
    ("agent", str "agents/toy_agent.py")
    ∷ ("task_ref", str "dice_game@1")
    ∷ ("budget_override", obj (("steps", int (pos 5)) ∷ []))
    ∷ [])

abbrev config : EpisodeConfig
config = record {
  agent = "agents/toy_agent.py";
  task_ref = "dice_game@1";
  seed = int (pos 0);
  model = none;
  provider = none;
  budget_override = of_dict (("steps", int (pos 5)) ∷ []);
  wall_clock_timeout_s = null;
  metadata = of_dict [];
  schema_version = "1";
}

load_episode_config-config_dict_example :
    load_episode_config text_of (config_dict config) ≡ ok config
unfolding load_episode_config as_dict to_dict get_or_null get truthy all_positive
load_episode_config-config_dict_example =
    load_episode_config-config_dict text_of data_in config refl
