-- ===== src/Ledger/Signed.antt =====
-- Which registries verify.
use tracecore.Prelude.{
  String, ◌≡◌, ◌≢◌, refl, sym, ◌∙◌, ap, ◌↔◌, true, some, [], ◌∷◌, ◌==◌, eq_iff, eq_refl, arith,
  Bool-cases, inl, inr,
}
use tracecore.Prelude.Dict.{Dict, put}
use tracecore.Prelude.Text.{◌<>◌}
use tracecore.Value.{Value, null, bool, int, str, list, dict, obj, truthy, get_or_null, as_dict-obj}
use tracecore.Value.Defaults.{get_or_null-put}
use tracecore.Value.Equality.{value_eq}
use tracecore.Exc.{ok}
use tracecore.Files.{Library}
use tracecore.Ledger.{load_registry, stamp_registry}
use tracecore.Ledger.Signing.{
  PrivateKey, PublicKey, Tools, is_provenance, clean, update, verify_value, registry_digest,
  sign_registry, verify_registry_signature,
}

-- The registry holds the digest of the rest of it, and a signature of that digest.
pub record IsSigned (tools : Tools) (key : PublicKey) (registry : Dict Value) : Type 0 where
  pub signature : String
  pub is_signature : get_or_null "ledger_signature" registry ≡ str signature
  pub has_signature : signature ≢ ""
  pub is_digest : get_or_null "ledger_sha256" registry ≡ str (registry_digest tools registry)
  pub has_digest : registry_digest tools registry ≢ ""
  pub verified : key (registry_digest tools registry) signature ≡ true

str-digest : (t : String) (v : Value) → value_eq (str t) v ≡ true → v ≡ str t
unfolding value_eq
str-digest t (str s) h = ap str (sym ((eq_iff t s).0 h))
str-digest t null h = cc
str-digest t (bool b) h = cc
str-digest t (int n) h = cc
str-digest t (list vs) h = cc
str-digest t (dict f) h = cc

verify_value-str :
    (key : PublicKey) (message : String) (v : Value)
    → verify_value key message v ≡ true
    → (s : String) × (v ≡ str s) × (key message s ≡ true)
verify_value-str key message (str s) h = (s, refl, h)
verify_value-str key message null h = cc
verify_value-str key message (bool b) h = cc
verify_value-str key message (int n) h = cc
verify_value-str key message (list vs) h = cc
verify_value-str key message (dict f) h = cc

truthy-str : (s : String) → truthy (str s) ≡ true → s ≢ ""
unfolding truthy
truthy-str s h = ground (arith, eq_iff s "")

str-truthy : (s : String) → s ≢ "" → truthy (str s) ≡ true
unfolding truthy
str-truthy s n = ground (arith, eq_iff s "")

module _ (tools : Tools) (key : PublicKey) where
  verify_tests :
      (registry : Dict Value)
      → verify_registry_signature tools key registry ≡ true
      → let signature = get_or_null "ledger_signature" registry in
        let expected = get_or_null "ledger_sha256" registry in
        (truthy signature ≡ true)
        × (truthy expected ≡ true)
        × (value_eq (str (registry_digest tools registry)) expected ≡ true)
        × (verify_value key (registry_digest tools registry) signature ≡ true)
  unfolding verify_registry_signature
  verify_tests registry h = ground arith

  verify_sound :
      (registry : Dict Value)
      → verify_registry_signature tools key registry ≡ true
      → IsSigned tools key registry
  verify_sound registry h =
      let (s, t, e, v) = verify_tests registry h in
      let (signature, q, k) =
        verify_value-str key (registry_digest tools registry)
          (get_or_null "ledger_signature" registry) v in
      let d =
        str-digest (registry_digest tools registry) (get_or_null "ledger_sha256" registry) e in
      record {
        signature = signature;
        is_signature = q;
        has_signature = truthy-str signature (rw q at s);
        is_digest = d;
        has_digest = truthy-str (registry_digest tools registry) (rw d at t);
        verified = k;
      }

  verify_complete :
      (registry : Dict Value)
      → IsSigned tools key registry
      → verify_registry_signature tools key registry ≡ true
  unfolding verify_registry_signature value_eq
  verify_complete registry i =
      rw
        (
          verify_registry_signature,
          i.is_signature,
          i.is_digest,
          str-truthy i.signature i.has_signature,
          str-truthy (registry_digest tools registry) i.has_digest,
          eq_refl (registry_digest tools registry),
        )
        i.verified

  -- The signature of a registry verifies exactly when the registry holds the digest of what is left
  -- of it without the four fields of provenance, not empty, and a text, not empty, that the key
  -- accepts as a signature of that digest.
  pub verify_registry_signature_iff :
      (registry : Dict Value)
      → (verify_registry_signature tools key registry ≡ true) ↔ IsSigned tools key registry
  verify_registry_signature_iff registry = (verify_sound registry, verify_complete registry)

clean-put :
    (k : String) (v : Value) (d : Dict Value) → is_provenance k ≡ true → clean (put k v d) ≡ clean d
unfolding clean put
clean-put k v [] h = rw h refl
clean-put k v ((j, w) ∷ d) h = elim (Bool-cases (j == k)) [
  | inl e ↦ let q : is_provenance j ≡ true = rw ((eq_iff j k).0 e) h in rw (e, q) refl
  | inr e ↦ elim (Bool-cases (is_provenance j)) [
    | inl p ↦ rw (e, p) (clean-put k v d h)
    | inr p ↦ rw (e, p) (ap (λ r. (j, w) ∷ r) (clean-put k v d h))
  ]
]

-- A registry with the fields of `sign_registry` has the digest that it had.
clean-sign_registry :
    (tools : Tools) (key : PrivateKey) (now : String) (registry : Dict Value)
    → clean (update (sign_registry tools key now registry) registry) ≡ clean registry
unfolding update sign_registry
clean-sign_registry tools key now registry =
    clean-put "signing_pubkey_id" _ _ refl
    ∙ clean-put "signed_at" _ _ refl
    ∙ clean-put "ledger_signature" _ _ refl
    ∙ clean-put "ledger_sha256" _ registry refl

-- The public key that goes with a private key.
pub record IsPair (private_key : PrivateKey) (key : PublicKey) : Type 0 where
  pub accepts : (t : String) → key t (private_key.sign_bytes t) ≡ true
  pub writes : (t : String) → private_key.sign_bytes t ≢ ""

stamped-IsSigned :
    (tools : Tools) (private_key : PrivateKey) (key : PublicKey) (now : String)
    (registry : Dict Value)
    → IsPair private_key key
    → registry_digest tools registry ≢ ""
    → IsSigned tools key (update (sign_registry tools private_key now registry) registry)
unfolding update sign_registry
stamped-IsSigned tools private_key key now registry pair n =
    let digest = registry_digest tools registry in
    let same : registry_digest tools
          (update (sign_registry tools private_key now registry) registry)
        ≡ digest =
      ap (λ r. tools.sha256 (tools.canonical r))
        (clean-sign_registry tools private_key now registry) in
    record {
      signature = private_key.sign_bytes digest;
      is_signature = rw (get_or_null-put, get_or_null-put, get_or_null-put) refl;
      has_signature = pair.writes digest;
      is_digest =
          rw (get_or_null-put, get_or_null-put, get_or_null-put, get_or_null-put, same) refl;
      has_digest = rw same n;
      verified = rw same (pair.accepts digest);
    }

-- With a key, `stamp_registry` writes a registry that reads back with the same content but for the
-- fields of provenance, and whose signature verifies with the public key that goes with the key;
-- where the file holds an object, and digests and signatures are not empty.
pub verify_registry_signature-stamp_registry :
    (lib : Library) (tools : Tools) (private_key : PrivateKey) (key : PublicKey) (now file : String)
    (registry : Dict Value)
    → IsPair private_key key
    → registry_digest tools registry ≢ ""
    → load_registry lib file ≡ ok registry
    → let signed = update (sign_registry tools private_key now registry) registry in
      lib.load (lib.dump_indented (obj signed) <> "\n") ≡ some (obj signed)
      → (text : String) × (stamp_registry lib tools (some private_key) now file ≡ ok text)
        × (load_registry lib text ≡ ok signed)
        × (clean signed ≡ clean registry)
        × (verify_registry_signature tools key signed ≡ true)
unfolding stamp_registry
verify_registry_signature-stamp_registry lib tools private_key key now file registry pair n l
      reads =
    let signed = update (sign_registry tools private_key now registry) registry in
    (
      lib.dump_indented (obj signed) <> "\n",
      rw l refl,
      rw (load_registry, reads, as_dict-obj) refl,
      clean-sign_registry tools private_key now registry,
      verify_complete tools key signed (stamped-IsSigned tools private_key key now registry pair n),
    )
