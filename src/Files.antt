-- ===== src/Files.antt =====
-- Files as texts by name, and what Python's library makes of texts: the printing and reading of
-- JSON and the digest, which are parameters.
use tracecore.Prelude.{String, Option}
use tracecore.Prelude.Dict.{Dict}
use tracecore.Value.{Value}

abbrev pub Directory : Type 0
Directory = Dict String

-- `json.dumps` in one line and with an indent of two, `json.loads`, which gives nothing where it
-- raises, and the hexadecimal digits of SHA-256. Bundles and runs are printed as they are, and the
-- session with escapes for what is not ASCII, so a theorem on both takes two of these.
pub record Library : Type 0 where
  pub dump : Value → String
  pub dump_indented : Value → String
  pub load : String → Option Value
  pub sha256 : String → String
