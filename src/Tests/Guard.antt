-- ===== src/Tests/Guard.antt =====
-- The sandbox of the tasks, at concrete paths and hosts.
use tracecore.Prelude.{ℕ, ◌≡◌, refl, false, none, List, [], ◌∷◌, if◌then◌else◌, ◌==◌}
use tracecore.Prelude.Int.{pos}
use tracecore.Prelude.Text.{
  split, starts_with, ends_with, is_infix, join, strip, lower, before, has_char, is_digits, after,
  to_int,
}
use tracecore.Exc.{ok}
use tracecore.Env.State.{new_environment}
use tracecore.Env.Path.{normalize_path, under_root, as_posix, parts}
use tracecore.Env.Network.{check, match_entry, extract_host}
use tracecore.Env.Network.Check.{IsPermitted, check_iff}
use tracecore.Env.Guard
use tracecore.Env.Guard.{
  Guarded, Audit, fs, net, Frame, ensure_allowed, ensure_fs_allowed, begin_step, consume_audit,
}
use tracecore.Env.Guard.Confinement.{MayAccess, ensure_fs_allowed_iff}
use tracecore.Env.Guard.Trail.{
  Access, list_dir, read_file, write_file, request, perform_all, trail, consume_audit-perform_all,
}
use tracecore.Env.Guard.Files.{read_file-write_file}

-- The sandbox of a task with the root /app and one host.
abbrev sandbox : Guarded ℕ
sandbox = record {
  env = new_environment;
  allowed_prefixes = "tasks." ∷ "agent_bench.tasks." ∷ [];
  filesystem_roots = "/app" ∷ [];
  network_guard = "*.example.com" ∷ [];
  allow_test_callers = false;
  audit_entries = [];
  audit_step = none;
}

abbrev stack : List Frame
stack = record { module_name = "tasks.demo.actions"; filename = "demo.py" } ∷ []

ensure_fs_allowed_iff_example : MayAccess sandbox "app/./data//a.txt" "/app/data/a.txt"
unfolding ensure_fs_allowed normalize_path as_posix parts split join is_infix ends_with starts_with
    under_root
ensure_fs_allowed_iff_example =
    (ensure_fs_allowed_iff sandbox "app/./data//a.txt" "/app/data/a.txt").0 refl

check_iff_example :
    IsPermitted ("*.example.com" ∷ []) (extract_host "HTTPS://API.example.com:443/v1")
    × ("api.example.com" ≡ (extract_host "HTTPS://API.example.com:443/v1").host)
unfolding check extract_host is_infix strip lower before has_char is_digits after to_int match_entry
    ends_with
check_iff_example =
    (check_iff ("*.example.com" ∷ []) "HTTPS://API.example.com:443/v1" "api.example.com").0 refl

-- Reads and writes below and outside the root, and two requests.
abbrev accesses : List Access
accesses =
    list_dir "/app"
    ∷ read_file "/etc/passwd"
    ∷ write_file "app/out" "x"
    ∷ request "api.example.com"
    ∷ request "example.com"
    ∷ []

consume_audit-perform_all_example :
    (consume_audit (perform_all stack accesses (begin_step (pos 3) sandbox))).0
    ≡ trail stack sandbox accesses
consume_audit-perform_all_example = consume_audit-perform_all stack (pos 3) accesses sandbox

read_file-write_file_example :
    let (r, g') = Guard.write_file stack "/app/out" "x" sandbox in
    (r ≡ ok tt)
    × ((Guard.read_file stack "app//out" g').0 ≡ (
        if "/app/out" == "/app/out" then ok "x" else (Guard.read_file stack "app//out" sandbox).0))
unfolding ensure_allowed ensure_fs_allowed normalize_path as_posix parts split join is_infix
    ends_with starts_with under_root
read_file-write_file_example =
    read_file-write_file stack sandbox refl "/app/out" "app//out" "x" "/app/out" "/app/out" refl
      refl
