-- ===== src/Bundle/Tamper.antt =====
-- What a change of a listed file does to a bundle.
use tracecore.Prelude.{
  String, ◌≡◌, ◌≢◌, refl, sym, ◌∙◌, ◌==◌, eq_iff, some, List, [], ◌∷◌, All, Any, inl, inr,
  Bool-cases,
}
use tracecore.Prelude.Dict.{get, put, get-put, get-put_self}
use tracecore.Prelude.Text.{strip}
use tracecore.Exc.{ok}
use tracecore.Files.{Library, Directory}
use tracecore.Bundle.Text.{lines_by, ends_line, cut}
use tracecore.Bundle.Write.{integrity_name}
use tracecore.Bundle.Verify.{verify_bundle}
use tracecore.Bundle.Listing.{IsIntact, blank, file}
use tracecore.Bundle.Verified.{verify_bundle_iff}

-- A line gives the file this digest.
abbrev pub Lists : String → String → String → Type 0
Lists expected name line = cut (strip line) ≡ some (expected, name)

cut-empty : {p : String × String} → cut "" ≡ some p → ⊥
unfolding cut
cut-empty h = cc

line_digest :
    (lib : Library) (d : Directory) (expected name text line : String)
    → IsIntact lib d line
    → Lists expected name line
    → get name d ≡ some text
    → expected ≡ lib.sha256 text
line_digest lib d expected name text line (blank b) l g = absurd (cut-empty (rw b at l))
line_digest lib d expected name text line (file other t c g') l g =
    let e : some (expected, name) ≡ some (lib.sha256 t, other) = sym l ∙ c in
    let n : name ≡ other = cc in let q : some t ≡ some text = sym g' ∙ rw (← n) g in cc

-- A file that an intact listing names has the digest given there.
pub listed_digest :
    (lib : Library) (d : Directory) (expected name text : String) (lines : List String)
    → All (IsIntact lib d) lines
    → Any (Lists expected name) lines
    → get name d ≡ some text
    → expected ≡ lib.sha256 text
listed_digest lib d expected name text [] h a g = absurd a
listed_digest lib d expected name text (line ∷ lines) h (inl l) g =
    line_digest lib d expected name text line h.0 l g
listed_digest lib d expected name text (line ∷ lines) h (inr a) g =
    listed_digest lib d expected name text lines h.1 a g

get-put_other : (k j : String) (v : String) (d : Directory) → k ≢ j → get j (put k v d) ≡ get j d
get-put_other k j v d n = elim (Bool-cases (k == j)) [
  | inl e ↦ absurd (n ((eq_iff k j).0 e))
  | inr e ↦ rw (get-put, e) refl
]

-- In a bundle that verifies, let the listing name a file. If that file is given a text with another
-- digest, and it is not the listing itself, the bundle does not verify any more.
pub verify_bundle-put :
    (lib : Library) (d : Directory) (listing expected name old text : String)
    → verify_bundle lib d ≡ ok []
    → get integrity_name d ≡ some listing
    → Any (Lists expected name) (lines_by ends_line listing)
    → get name d ≡ some old
    → name ≢ integrity_name
    → lib.sha256 text ≢ lib.sha256 old
    → ¬ (verify_bundle lib (put name text d) ≡ ok [])
verify_bundle-put lib d listing expected name old text ok_before l a g n differ ok_after =
    let before = (verify_bundle_iff lib d).0 ok_before in
    let after = (verify_bundle_iff lib (put name text d)).0 ok_after in
    let same : some before.listing ≡ some listing = sym before.is_listing ∙ l in
    let kept : some after.listing ≡ some listing =
      sym after.is_listing ∙ get-put_other name integrity_name text d n ∙ l in
    let was : before.listing ≡ listing = cc in
    let is : after.listing ≡ listing = cc in
    differ (
      sym (
        listed_digest lib (put name text d) expected name text (lines_by ends_line listing)
          (rw is at after.intact) a (get-put_self name text d))
      ∙ listed_digest lib d expected name old (lines_by ends_line listing) (rw was at before.intact)
          a g)
