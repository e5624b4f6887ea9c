-- ===== src/Env/Path/Clean.antt =====
-- A path that is accepted is absolute and has no parent component.
use tracecore.Prelude.{String, ◌≡◌, ◌≢◌, true, arith, All}
use tracecore.Prelude.Text.{starts_with, split}
use tracecore.Prelude.Text.Split.{split-ne-dotdot}
use tracecore.Exc.{ok}
use tracecore.Env.Path.{normalize_path, absolute, as_posix}

absolute_lem : (s : String) → starts_with (absolute s) "/" ≡ true
unfolding starts_with
absolute_lem s = ground arith

-- A path that is accepted begins with a slash, and no component of it is "..".
pub normalize_path-IsClean :
    (path : String) {norm : String}
    → normalize_path path ≡ ok norm
    → (starts_with norm "/" ≡ true) × All (λ p. p ≢ "..") (split b'/' norm)
unfolding normalize_path
normalize_path-IsClean path {norm} h =
    let e : absolute (as_posix path) ≡ norm = ground arith in
    let b : starts_with norm "/" ≡ true = rw e at (absolute_lem (as_posix path)) in
    (b, split-ne-dotdot norm b (ground arith))
