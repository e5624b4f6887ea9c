-- ===== src/Ledger/Signing.antt =====
-- agent_bench/ledger/signing.py. The keys, the signatures in base64 and the archive come from
-- libraries, and are parameters.
use tracecore.Prelude.{ℕ, String, Bool, false, not, ◌||◌, List, [], ◌∷◌, ◌==◌, if◌then◌else◌}
use tracecore.Prelude.Dict.{Dict, put}
use tracecore.Prelude.Sort.{sort_by, text_leb}
use tracecore.Value.{Value, str, truthy, get_or_null}
use tracecore.Value.Equality.{value_eq}

-- A private key: `sign_bytes` with it, and the fingerprint of its public key.
pub record PrivateKey : Type 0 where
  pub sign_bytes : String → String
  pub fingerprint : String

-- A public key: `verify_bytes` with it, which is false also where the library raises.
abbrev pub PublicKey : Type 0
PublicKey = String → String → Bool

-- `json.dumps` with sorted keys and without spaces, the digest, and the bytes of an archive of files
-- by name, time of change and text.
pub record Tools : Type 0 where
  pub canonical : Dict Value → String
  pub sha256 : String → String
  pub archive : List (String × ℕ × String) → String

-- The fields that are not signed.
abbrev pub is_provenance : String → Bool
is_provenance k =
    k == "ledger_signature" || k == "ledger_sha256" || k == "signed_at" || k == "signing_pubkey_id"

unfoldable pub clean : Dict Value → Dict Value
clean [] = []
clean ((k, v) ∷ d) = let rest = clean d in if is_provenance k then rest else (k, v) ∷ rest

-- `registry.update(provenance)`
unfoldable pub update : Dict Value → Dict Value → Dict Value
update [] d = d
update ((k, v) ∷ provenance) d = update provenance (put k v d)

-- A text against the signature that a field holds.
abbrev pub verify_value : PublicKey → String → Value → Bool
verify_value key message (str s) = key message s
verify_value key message v = false

pub record BundleSignature : Type 0 where
  pub bundle_sha256 : String
  pub bundle_signature : String
  pub signed_at : String

module _ (tools : Tools) where
  abbrev pub registry_digest : Dict Value → String
  registry_digest registry = tools.sha256 (tools.canonical (clean registry))

  unfoldable pub sign_registry : PrivateKey → String → Dict Value → Dict Value
  unfolding clean
  sign_registry key now registry =
      let digest = registry_digest registry in
      ("ledger_sha256", str digest)
      ∷ ("ledger_signature", str (key.sign_bytes digest))
      ∷ ("signed_at", str now)
      ∷ ("signing_pubkey_id", str key.fingerprint)
      ∷ []

  unfoldable pub verify_registry_signature : PublicKey → Dict Value → Bool
  unfolding clean
  verify_registry_signature key registry =
      let signature = get_or_null "ledger_signature" registry in
      let expected = get_or_null "ledger_sha256" registry in
      if not (truthy signature) || not (truthy expected)
      then false
      else if not (value_eq (str (registry_digest registry)) expected)
      then false
      else verify_value key (registry_digest registry) signature

  abbrev by_name : String × ℕ × String → String × ℕ × String → Bool
  by_name (a, m, s) (b, n, t) = text_leb a b

  -- `_hash_bundle_dir`: the archive keeps the time of a file's last change.
  abbrev pub hash_bundle_dir : List (String × ℕ × String) → String
  hash_bundle_dir files = tools.sha256 (tools.archive (sort_by by_name files))

  unfoldable pub sign_bundle : PrivateKey → String → List (String × ℕ × String) → BundleSignature
  sign_bundle key now files =
      let digest = hash_bundle_dir files in
      record { bundle_sha256 = digest; bundle_signature = key.sign_bytes digest; signed_at = now }

  unfoldable pub verify_bundle_signature :
      PublicKey → List (String × ℕ × String) → String → String → Bool
  verify_bundle_signature key files signature expected =
      let digest = hash_bundle_dir files in
      if not (digest == expected) then false else key digest signature
