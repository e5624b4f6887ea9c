-- ===== src/Bundle/Sign.antt =====
-- `sign_bundle` of agent_bench/runner/bundle.py. What the key file gives is an argument; writing a
-- file that can be written does not raise. The document of a signature is ASCII, which is printed alike
-- with escapes and without.
use tracecore.Prelude.{String, Bool, true, false, Option, none, some, List, [], ◌∷◌}
use tracecore.Prelude.Dict.{Dict, get, put}
use tracecore.Prelude.Text.{◌<>◌}
use tracecore.Value.{Value, bool, str, dict, obj, to_dict}
use tracecore.Files.{Library, Directory}
use tracecore.Bundle.Write.{manifest_name, calls_name, validator_name, integrity_name, listing_line}

abbrev pub signature_name : String
signature_name = "signature.json"

-- An Ed25519 key: the signature of a text, in hexadecimal digits, and the public key as PEM.
pub record Signer : Type 0 where
  pub sign_hex : String → String
  pub public_pem : String

-- What becomes of the key: no such file, no `cryptography` package, a key of another kind, a file
-- that does not load, or a key.
pub data Key : Type 0 where
  not_found no_package other_kind unreadable : Key
  loaded : Signer → Key

pub data Refusal : Type 0 where
  no_listing key_not_found package_missing no_ed25519 load_failed : Refusal

-- `{"ok": …, "signature_file": …, "errors": …}`
pub record Signing : Type 0 where
  pub is_ok : Bool
  pub signature_file : Option String
  pub errors : List Refusal

abbrev refusal : Refusal → Signing
refusal r = record { is_ok = false; signature_file = none; errors = r ∷ [] }

abbrev pub signature_doc : Signer → String → Value
signature_doc s payload = obj (
    ("signed_file", str integrity_name)
    ∷ ("algorithm", str "ed25519")
    ∷ ("signature_hex", str (s.sign_hex payload))
    ∷ ("public_key_pem", str s.public_pem)
    ∷ [])

abbrev pub marked : Dict Value → Dict Value
marked m =
    put "signature_file" (str signature_name)
      (put "signature_algorithm" (str "ed25519") (put "signed" (bool true) m))

-- What `write_bundle` lists.
abbrev pub covered_names : List String
covered_names = manifest_name ∷ calls_name ∷ validator_name ∷ []

module _ (lib : Library) where
  -- `_write_integrity` on what is there: it raises at the first file that is missing, and what it
  -- has written by then stays.
  abbrev line_then : String → Option String → String → String
  line_then name none rest = ""
  line_then name (some text) rest = listing_line lib (name, text) <> "\n" <> rest

  unfoldable pub relisting : Directory → List String → String
  relisting d [] = ""
  relisting d (name ∷ names) = line_then name (get name d) (relisting d names)

  abbrev pub relisted : Directory → Directory
  relisted d = put integrity_name (relisting d covered_names) d

  -- The manifest with its mark and the new listing. Where the manifest does not load, or is no
  -- object, an exception is passed over.
  abbrev pub mark_manifest : Option Value → Directory → Directory
  mark_manifest (some (dict f)) d =
      relisted (put manifest_name (lib.dump_indented (obj (marked (to_dict f)))) d)
  mark_manifest m d = d

  abbrev pub mark_text : Option String → Directory → Directory
  mark_text none d = d
  mark_text (some text) d = mark_manifest (lib.load text) d

  abbrev pub signed : Signer → String → Directory → Directory
  signed s payload d =
      let d' = put signature_name (lib.dump_indented (signature_doc s payload)) d in
      mark_text (get manifest_name d') d'

  abbrev pub sign_with : Key → String → Directory → Signing × Directory
  sign_with not_found payload d = (refusal key_not_found, d)
  sign_with no_package payload d = (refusal package_missing, d)
  sign_with other_kind payload d = (refusal no_ed25519, d)
  sign_with unreadable payload d = (refusal load_failed, d)
  sign_with (loaded s) payload d = (
    record { is_ok = true; signature_file = some signature_name; errors = [] },
    signed s payload d,
  )

  unfoldable pub sign_bundle : Key → Directory → Signing × Directory
  sign_bundle key d = elim (get integrity_name d) [
    | none ↦ (refusal no_listing, d)
    | some payload ↦ sign_with key payload d
  ]
