-- ===== src/Tests/Ledgers.antt =====
-- A small ledger.
use tracecore.Prelude.{◌≡◌, refl, String, true, some, List, [], ◌∷◌, ◌==◌, if◌then◌else◌, eq_refl}
use tracecore.Prelude.Dict.{Dict}
use tracecore.Prelude.Text.{◌<>◌}
use tracecore.Value.{Value, str, list, obj, of_list}
use tracecore.Exc.{ok}
use tracecore.Files.{Library}
use tracecore.Ledger.{load_registry, stamp_registry}
use tracecore.Ledger.Signing.{
  PrivateKey, PublicKey, Tools, clean, update, sign_registry, verify_registry_signature,
}
use tracecore.Ledger.Signed.{IsPair, verify_registry_signature-stamp_registry}

abbrev entries : List Value
entries = obj (("agent", str "agents/b.py") ∷ []) ∷ obj (("agent", str "agents/a.py") ∷ []) ∷ []

abbrev registry : Dict Value
registry = ("version", str "1") ∷ ("entries", list (of_list entries)) ∷ []

abbrev tools : Tools
tools = record { canonical = λ d. "c"; sha256 = λ t. t; archive = λ files. "z" }

abbrev private_key : PrivateKey
private_key = record { sign_bytes = λ t. "s" <> t; fingerprint = "f" }

abbrev key : PublicKey
key t s = s == "s" <> t

pair : IsPair private_key key
pair = record { accepts = λ t. eq_refl ("s" <> t); writes = λ t e. cc }

abbrev stamped : Dict Value
stamped = update (sign_registry tools private_key "now" registry) registry

-- A library for this registry.
abbrev lib : Library
lib = record {
  dump = λ v. "";
  dump_indented = λ v. "stamped";
  load = λ t. if t == "stamped\n" then some (obj stamped) else some (obj registry);
  sha256 = λ t. t;
}

verify_registry_signature-stamp_registry_example :
    (text : String) × (stamp_registry lib tools (some private_key) "now" "file" ≡ ok text)
    × (load_registry lib text ≡ ok stamped)
    × (clean stamped ≡ clean registry)
    × (verify_registry_signature tools key stamped ≡ true)
unfolding tracecore.Value.as_dict tracecore.Value.to_dict
verify_registry_signature-stamp_registry_example =
    verify_registry_signature-stamp_registry lib tools private_key key "now" "file" registry pair
      (λ e. cc) refl refl
