-- ===== src/Bundle/Listed.antt =====
-- A listing that was just written is intact.
use tracecore.Prelude.{String, ◌≡◌, ◌≢◌, refl, some, List, [], ◌∷◌, map, All, arith}
use tracecore.Prelude.Dict.{get}
use tracecore.Prelude.Text.{◌<>◌, rstrip_by, is_space}
use tracecore.Files.{Library, Directory}
use tracecore.Bundle.Text.{lines_by, ends_line}
use tracecore.Bundle.Text.Laws.{
  Lacks, IsWord, lines_by-written_lines, strip-append, cut-append, Lacks-append, Lacks-ends_line,
}
use tracecore.Bundle.Write.{manifest_name, calls_name, validator_name, listing, listing_line}
use tracecore.Bundle.Listing.{IsIntact, file}

-- A name that stands as it is at the end of a line of the listing.
pub record IsName (name : String) : Type 0 where
  pub there : "  " <> name ≢ ""
  pub stripped : rstrip_by is_space ("  " <> name) ≡ "  " <> name
  pub one_line : Lacks ends_line ("  " <> name)

pub manifest_name-IsName : IsName manifest_name
unfolding rstrip_by is_space
manifest_name-IsName = record { there = λ h. cc; stripped = refl; one_line = ground arith }

pub calls_name-IsName : IsName calls_name
unfolding rstrip_by is_space
calls_name-IsName = record { there = λ h. cc; stripped = refl; one_line = ground arith }

pub validator_name-IsName : IsName validator_name
unfolding rstrip_by is_space
validator_name-IsName = record { there = λ h. cc; stripped = refl; one_line = ground arith }

module _ (lib : Library) (digests : (t : String) → IsWord (lib.sha256 t)) where
  file_line :
      (d : Directory) (name text : String)
      → IsName name
      → get name d ≡ some text
      → IsIntact lib d (listing_line lib (name, text))
  file_line d name text n g =
      let w = digests text in
      let s = strip-append (lib.sha256 text) ("  " <> name) w n.there n.stripped in
      file name text (rw s (cut-append (lib.sha256 text) name w.1)) g

  pub listing_lines :
      (files : List (String × String))
      → All (λ f. IsName (f.0)) files
      → lines_by ends_line (listing lib files) ≡ map (listing_line lib) files
  listing_lines files h =
      lines_by-written_lines ends_line (map (listing_line lib) files) refl (each files h)
    where
      each :
          (files : List (String × String))
          → All (λ f. IsName (f.0)) files
          → All (Lacks ends_line) (map (listing_line lib) files)
      each [] h = tt
      each ((name, text) ∷ files) h = (
        Lacks-append ends_line (lib.sha256 text) ("  " <> name)
            (Lacks-ends_line (lib.sha256 text) (digests text).1) h.0.one_line,
        each files h.1,
      )

  lines-IsIntact :
      (d : Directory) (files : List (String × String))
      → All (λ f. IsName (f.0)) files
      → All (λ f. get (f.0) d ≡ some (f.1)) files
      → All (IsIntact lib d) (map (listing_line lib) files)
  lines-IsIntact d [] n h = tt
  lines-IsIntact d ((name, text) ∷ files) n h =
      (file_line d name text n.0 h.0, lines-IsIntact d files n.1 h.1)

  -- The listing of files that the directory holds is intact.
  pub listing-IsIntact :
      (d : Directory) (files : List (String × String))
      → All (λ f. IsName (f.0)) files
      → All (λ f. get (f.0) d ≡ some (f.1)) files
      → All (IsIntact lib d) (lines_by ends_line (listing lib files))
  listing-IsIntact d files n h = rw (listing_lines files n) (lines-IsIntact d files n h)
