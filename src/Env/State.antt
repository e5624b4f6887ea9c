-- ===== src/Env/State.antt =====
-- `Environment` of agent_bench/env/environment.py. A hidden value is any Python object: its type
-- is a parameter. An output is any value, since nothing checks that it is a text.
use tracecore.Prelude.{
  String, Bool, Option, none, some, List, [], ◌∷◌, ◌++◌, ◌==◌, if◌then◌else◌, any,
}
use tracecore.Prelude.Dict.{Dict, get, put, keys, contains}
use tracecore.Prelude.Text.{empty, ◌◃◌, ◌<>◌, starts_with, before, rstrip}
use tracecore.Prelude.Sort.{sorted}
use tracecore.Value.{Value, Items, str, list, cons, nil, obj}
use tracecore.Exc.{Result, ok, raised, ◌>>=◌, key_error}
use tracecore.Env.Path.{normalize_path}

pub record Environment (H : Type 0) : Type 0 where
  pub files : Dict String
  pub hidden_state : Dict H
  pub agent_output : Dict Value
  pub seen_paths : List String

abbrev pub new_environment : {H : Type 0} → Environment H
new_environment = record { files = []; hidden_state = []; agent_output = []; seen_paths = [] }

-- `s.add(x)` on a set kept as a list with no repetition.
abbrev pub contains_text : String → List String → Bool
contains_text x xs = any (λ y. y == x) xs

unfoldable pub add : String → List String → List String
add x xs = if contains_text x xs then xs else xs ++ x ∷ []

-- `s[len(p):]`, where the text starts with `p`.
unfoldable pub drop_prefix : String → String → String
drop_prefix s empty = s
drop_prefix empty (d ◃ p) = empty
drop_prefix (c ◃ s) (d ◃ p) = drop_prefix s p

abbrev child_entry : String → String → String
child_entry prefix part = if part == "" then prefix else prefix <> part

-- The entries directly below a prefix, over the paths of the files.
unfoldable pub list_below : String → List String → List String → List String
list_below prefix seen [] = seen
list_below prefix seen (p ∷ ps) =
    list_below prefix
      (if starts_with p prefix
        then add (child_entry prefix (before b'/' (drop_prefix p prefix))) seen
        else seen)
      ps

abbrev found : String → Option String → Result String
found norm none = raised (key_error norm)
found norm (some content) = ok content

-- A list of texts as a value.
abbrev pub texts : List String → Items
texts [] = nil
texts (t ∷ ts) = cons (str t) (texts ts)

module _ {H : Type 0} where
  unfoldable pub write_file : String → String → Environment H → Result (Environment H)
  write_file path content env = do
    norm ← normalize_path path
    ok (record env { files = put norm content env.files })

  unfoldable pub read_file : String → Environment H → Result String
  read_file path env = do norm ← normalize_path path; found norm (get norm env.files)

  unfoldable pub exists : String → Environment H → Result Bool
  exists path env = do norm ← normalize_path path; ok (contains norm env.files)

  unfoldable pub list_dir : String → Environment H → Result (List String)
  unfolding list_below add
  list_dir path env = do
    norm ← normalize_path path
    ok (sorted (list_below (rstrip b'/' norm <> "/") [] (keys env.files)))

  -- The paths before one that raises stay marked.
  unfoldable pub mark_seen : List String → Environment H → Result (Unit {0}) × Environment H
  unfolding add
  mark_seen [] env = (ok tt, env)
  mark_seen (p ∷ ps) env = elim (normalize_path p) [
    | ok norm ↦ mark_seen ps (record env { seen_paths = add norm env.seen_paths })
    | raised e ↦ (raised e, env)
  ]

  unfoldable pub set_hidden_state : String → H → Environment H → Environment H
  set_hidden_state key value env = record env { hidden_state = put key value env.hidden_state }

  unfoldable pub get_hidden_state : String → Environment H → Option H
  get_hidden_state key env = get key env.hidden_state

  unfoldable pub set_agent_output : String → Value → Environment H → Environment H
  set_agent_output key value env = record env { agent_output = put key value env.agent_output }

  unfoldable pub get_agent_output : String → Environment H → Option Value
  get_agent_output key env = get key env.agent_output

  unfoldable pub visible_state : Environment H → Value
  visible_state env = obj (("files_seen", list (texts (sorted env.seen_paths))) ∷ [])
