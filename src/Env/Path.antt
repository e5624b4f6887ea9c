-- ===== src/Env/Path.antt =====
-- `normalize_path` of agent_bench/env/filesystem.py and `_normalize_fs_root` of
-- agent_bench/env/environment.py.
pub mod Clean
pub mod Under
use tracecore.Prelude.{
  String, Bool, true, false, not, ◌&&◌, ◌||◌, List, [], ◌∷◌, ◌==◌, if◌then◌else◌,
}
use tracecore.Prelude.Text.{starts_with, ends_with, is_infix, split, join, rstrip, ◌<>◌}
use tracecore.Exc.{Result, ok, raised, value_error}

-- The root that `PurePosixPath` keeps: two leading slashes are two, three are one.
posix_root : String → String
posix_root s =
    if starts_with s "//" && not (starts_with s "///")
    then "//"
    else if starts_with s "/"
    then "/"
    else ""

-- The parts that `PurePosixPath` keeps: not the empty ones, and not ".".
unfoldable pub parts : List String → List String
parts [] = []
parts (p ∷ ps) = let rest = parts ps in if p == "" || p == "." then rest else p ∷ rest

abbrev or_dot : String → String
or_dot s = if s == "" then "." else s

-- `PurePosixPath(s).as_posix()`
unfoldable pub as_posix : String → String
unfolding posix_root
as_posix s = or_dot (posix_root s <> join "/" (parts (split b'/' s)))

-- A relative path is read from the root.
abbrev absolute : String → String
absolute s = if starts_with s "/" then s else "/" <> s

has_parent : String → Bool
has_parent norm = is_infix "/../" (norm <> "/") || ends_with norm "/.."

abbrev refuse_parent : String → Result String
refuse_parent norm =
    if has_parent norm then raised (value_error "parent traversal is not allowed") else ok norm

unfoldable pub normalize_path : String → Result String
unfolding has_parent
normalize_path path =
    if path == ""
    then raised (value_error "path must be non-empty")
    else refuse_parent (absolute (as_posix path))

abbrev strip_root : String → String
strip_root norm = if not (norm == "/") && ends_with norm "/" then rstrip b'/' norm else norm

-- `_normalize_fs_root`
unfoldable pub normalize_fs_root : String → Result String
unfolding normalize_path
normalize_fs_root path = elim (normalize_path path) [
  | ok norm ↦ ok (strip_root norm)
  | raised e ↦ raised e
]

-- The test that `_ensure_fs_allowed` makes at each root.
unfoldable pub under_root : String → String → Bool
under_root norm root = root == "/" || norm == root || starts_with norm (root <> "/")
