-- ===== src/Bundle/Verify.antt =====
-- `verify_bundle`. A message is a constructor with what the message names. The loop over an entry's
-- audit makes the tests of `_audit_allowed` in the same order, and is that definition.
use tracecore.Prelude.{
  ℕ, ◌+◌, String, Option, none, some, List, [], ◌∷◌, ◌++◌, ◌==◌, if◌then◌else◌, map,
}
use tracecore.Prelude.Dict.{get}
use tracecore.Prelude.Text.{strip}
use tracecore.Value.{Value, Items, null, list, dict, to_list, to_dict, get_or_null}
use tracecore.Exc.{Result, ok, raised, ◌>>=◌, attribute_error}
use tracecore.Env.Network.{NetworkGuard}
use tracecore.Replay.Audit.{Divergence, check_entries, guard_of}
use tracecore.Files.{Library, Directory}
use tracecore.Bundle.Text.{lines_by, ends_line, breaks_line, cut}
use tracecore.Bundle.Write.{manifest_name, calls_name, integrity_name}

pub data Fault : Type 0 where
  integrity_missing manifest_unread sandbox_missing sandbox_lists calls_unread : Fault
  malformed missing_file : String → Fault
  hash_mismatch : String → String → String → Fault
  invalid_json audit_missing audit_no_list : ℕ → Fault
  refused : Divergence → Fault

module _ (lib : Library) where
  -- The digest of a listed file.
  abbrev pub digest_faults : String → String → Option String → List Fault
  digest_faults expected name none = missing_file name ∷ []
  digest_faults expected name (some text) =
      if lib.sha256 text == expected then [] else hash_mismatch name expected (lib.sha256 text) ∷ []

  abbrev pub listed_faults : Directory → String → Option (String × String) → List Fault
  listed_faults d line none = malformed line ∷ []
  listed_faults d line (some (expected, name)) = digest_faults expected name (get name d)

  -- A line of the listing, stripped.
  abbrev pub line_faults : Directory → String → List Fault
  line_faults d line = if line == "" then [] else listed_faults d line (cut line)

  unfoldable pub integrity_faults : Directory → List String → List Fault
  integrity_faults d [] = []
  integrity_faults d (line ∷ lines) = line_faults d (strip line) ++ integrity_faults d lines

  -- The audit of a tool call.
  abbrev pub audit_faults : Items → NetworkGuard → ℕ → Value → Result (List Fault)
  audit_faults roots guard n null = ok (audit_missing n ∷ [])
  audit_faults roots guard n (list audit) = do
    ds ← check_entries (list roots) guard "tool_calls.jsonl" n (to_list audit)
    ok (map refused ds)
  audit_faults roots guard n v = ok (audit_no_list n ∷ [])

  abbrev pub call_faults : Items → NetworkGuard → ℕ → Option Value → Result (List Fault)
  call_faults roots guard n none = ok (invalid_json n ∷ [])
  call_faults roots guard n (some (dict f)) =
      audit_faults roots guard n (get_or_null "io_audit" (to_dict f))
  call_faults roots guard n (some v) = raised (attribute_error "get")

  -- The loop over the lines of the tool calls.
  unfoldable pub calls_faults : Items → NetworkGuard → ℕ → List String → Result (List Fault)
  calls_faults roots guard n [] = ok []
  calls_faults roots guard n (line ∷ lines) = do
    here ← if strip line == "" then ok [] else call_faults roots guard n (lib.load line)
    later ← calls_faults roots guard (n + 1) lines
    ok (here ++ later)

  abbrev pub audited : Items → Items → Option String → Result (List Fault)
  audited roots hosts calls = do
    guard ← guard_of (to_list hosts)
    elim calls [
      | none ↦ ok (calls_unread ∷ [])
      | some text ↦ calls_faults roots guard 1 (lines_by breaks_line text)
    ]

  -- The roots and the hosts that the manifest declares.
  abbrev pub declared : Value → Value → Option String → Result (List Fault)
  declared (list roots) (list hosts) calls = audited roots hosts calls
  declared roots hosts calls = ok (sandbox_lists ∷ [])

  abbrev pub sandbox_faults : Value → Option String → Result (List Fault)
  sandbox_faults (dict f) calls =
      declared (get_or_null "filesystem_roots" (to_dict f))
        (get_or_null "network_hosts" (to_dict f)) calls
  sandbox_faults v calls = ok (sandbox_missing ∷ [])

  abbrev pub manifest_faults : Option Value → Option String → Result (List Fault)
  manifest_faults none calls = ok (manifest_unread ∷ [])
  manifest_faults (some (dict f)) calls = sandbox_faults (get_or_null "sandbox" (to_dict f)) calls
  manifest_faults (some v) calls = raised (attribute_error "get")

  abbrev pub read_json : Option String → Option Value
  read_json none = none
  read_json (some text) = lib.load text

  -- The errors of a bundle; it is fine if there is none.
  unfoldable pub verify_bundle : Directory → Result (List Fault)
  verify_bundle d = elim (get integrity_name d) [
    | none ↦ ok (integrity_missing ∷ [])
    | some text ↦ do
      rest ← manifest_faults (read_json (get manifest_name d)) (get calls_name d)
      ok (integrity_faults d (lines_by ends_line text) ++ rest)
  ]
