-- ===== src/Episode/Reload.antt =====
-- A configuration that was loaded, and its dict.
use tracecore.Prelude.{
  ◌≡◌, refl, sym, String, true, false, Option, none, some, ◌==◌, Bool-cases, inl, inr,
}
use tracecore.Prelude.Int.{pos}
use tracecore.Prelude.Dict.{Dict, get}
use tracecore.Value.{
  Value, null, bool, int, str, list, dict, Fields, get_or_null, get_or, as_dict, to_dict,
}
use tracecore.Exc.{ok, ok_inj, ok-ne-raised, >>=-eq-ok}
use tracecore.Episode.{
  EpisodeConfig, is_int, required_text, required_int, optional_text, optional_int, or_empty,
  all_positive, positive_fields, option_value, load_fields, load_dict, load_episode_config,
  config_dict,
}

-- What the loader makes sure of.
record IsLoadable (c : EpisodeConfig) : Type 0 where
  agent : (c.agent == "") ≡ false
  task_ref : (c.task_ref == "") ≡ false
  seed : is_int c.seed ≡ true
  budget : all_positive c.budget_override ≡ true
  timeout : optional_int "wall_clock_timeout_s" c.wall_clock_timeout_s ≡ ok c.wall_clock_timeout_s

required_text-ok :
    (key : String) (v : Value) (s : String) → required_text key v ≡ ok s → (s == "") ≡ false
required_text-ok key (str t) s h = elim (Bool-cases (t == "")) [
  | inl e ↦ absurd (ok-ne-raised (sym (rw e at h)))
  | inr e ↦ rw (← ok_inj (rw e at h)) e
]
required_text-ok key null s h = cc
required_text-ok key (bool b) s h = cc
required_text-ok key (int n) s h = cc
required_text-ok key (list vs) s h = cc
required_text-ok key (dict f) s h = cc

required_int-ok : (key : String) (v w : Value) → required_int key v ≡ ok w → is_int w ≡ true
required_int-ok key v w h = elim (Bool-cases (is_int v)) [
  | inl e ↦ rw (← ok_inj (rw e at h)) e
  | inr e ↦ absurd (ok-ne-raised (sym (rw e at h)))
]

positive_fields-ok :
    (key : String) (f g : Fields) → positive_fields key f ≡ ok g → all_positive g ≡ true
positive_fields-ok key f g h = elim (Bool-cases (all_positive f)) [
  | inl e ↦ rw (← ok_inj (rw e at h)) e
  | inr e ↦ absurd (ok-ne-raised (sym (rw e at h)))
]

optional_int-ok :
    (key : String) (v w : Value) → optional_int key v ≡ ok w → optional_int key w ≡ ok w
optional_int-ok key null w h = rw (← ok_inj h) refl
optional_int-ok key (int n) w h = rw (← ok_inj h) refl
optional_int-ok key (bool b) w h = rw (← ok_inj h) refl
optional_int-ok key (str t) w h = cc
optional_int-ok key (list vs) w h = cc
optional_int-ok key (dict f) w h = cc

optional_text-value : (key : String) (o : Option String) → optional_text key (option_value o) ≡ ok o
optional_text-value key none = refl
optional_text-value key (some s) = refl

module _ (text_of : Value → String) where
  load_fields-IsLoadable :
      (d : Dict Value) (c : EpisodeConfig) → load_fields text_of d ≡ ok c → IsLoadable c
  load_fields-IsLoadable d c h =
      let (agent, a, h1) = >>=-eq-ok (required_text "agent" (get_or_null "agent" d)) _ h in
      let (task_ref, t, h2) =
        >>=-eq-ok (required_text "task_ref" (get_or_null "task_ref" d)) _ h1 in
      let (seed, s, h3) = >>=-eq-ok (required_int "seed" (get_or "seed" (int (pos 0)) d)) _ h2 in
      let (model, m, h4) = >>=-eq-ok (optional_text "model" (get_or_null "model" d)) _ h3 in
      let (provider, p, h5) =
        >>=-eq-ok (optional_text "provider" (get_or_null "provider" d)) _ h4 in
      let (override, o, h6) =
        >>=-eq-ok (or_empty "budget_override" (get_or_null "budget_override" d)) _ h5 in
      let (budget, b, h7) = >>=-eq-ok (positive_fields "budget_override" override) _ h6 in
      let (timeout, w, h8) =
        >>=-eq-ok (optional_int "wall_clock_timeout_s" (get_or_null "wall_clock_timeout_s" d)) _
          h7 in
      let (metadata, e, h9) = >>=-eq-ok (or_empty "metadata" (get_or_null "metadata" d)) _ h8 in
      rw (← ok_inj h9) (record {
        agent = required_text-ok "agent" (get_or_null "agent" d) agent a;
        task_ref = required_text-ok "task_ref" (get_or_null "task_ref" d) task_ref t;
        seed = required_int-ok "seed" (get_or "seed" (int (pos 0)) d) seed s;
        budget = positive_fields-ok "budget_override" override budget b;
        timeout =
            optional_int-ok "wall_clock_timeout_s" (get_or_null "wall_clock_timeout_s" d) timeout w;
      })

  load_config_dict :
      (c : EpisodeConfig) → IsLoadable c → load_episode_config text_of (config_dict c) ≡ ok c
  unfolding load_episode_config config_dict as_dict to_dict get_or_null get
  load_config_dict c l =
      rw
        (
          l.agent,
          l.task_ref,
          l.seed,
          optional_text-value "model" c.model,
          optional_text-value "provider" c.provider,
          l.budget,
          l.timeout,
        )
        refl

  load_dict-IsLoadable :
      (o : Option (Dict Value)) (c : EpisodeConfig) → load_dict text_of o ≡ ok c → IsLoadable c
  load_dict-IsLoadable none c h = absurd (ok-ne-raised (sym h))
  load_dict-IsLoadable (some d) c h = load_fields-IsLoadable d c h

  -- Whatever a configuration was loaded from, its dict loads to the same configuration.
  pub load_episode_config-config_dict :
      (data' : Value) (c : EpisodeConfig)
      → load_episode_config text_of data' ≡ ok c
      → load_episode_config text_of (config_dict c) ≡ ok c
  load_episode_config-config_dict data' c h =
      load_config_dict c (load_dict-IsLoadable (as_dict data') c (unfold load_episode_config in h))
