-- ===== src/Tests/Patches.antt =====
-- internal/pagepatch on small documents.
use pages.Common.{List, Option, Text, [], codes, none, refl, some, true, ◌↔◌, ◌∷◌, ◌≡◌}
use pages.Patch.Apply.{
  Applied, Edit, Outcome, anchor_mismatch, apply_edits, patched, refused, valid_edits,
}
use pages.Patch.Edits.{Fits, apply_edits_iff, edited}

abbrev source : Text
source = codes "abcab"

abbrev both : Edit
both = record { find = codes "ab"; replace = codes "x"; count = 2 }

abbrev after : Edit
after = record { find = codes "xc"; replace = codes "yy"; count = 0 }

html_of : Outcome (Text × List Applied) → Option Text
html_of (patched r) = some r.0
html_of (refused _) = none

patched_twice : html_of (apply_edits 100 source (both ∷ after ∷ [])) ≡ some (codes "yyx")
unfolding apply_edits html_of
patched_twice = refl

-- One match is expected, and two are there.
ambiguous :
    apply_edits 100 source (record both { count = 1 } ∷ []) ≡ refused (anchor_mismatch 0 1 2)
unfolding apply_edits
ambiguous = refl

first_log : List Applied
first_log = record { index = 0; count = 2; first_line = 1; bytes_before = 5; bytes_after = 3 } ∷ []

apply_edits_iff_example :
    ((log : List Applied) × (apply_edits 100 source (both ∷ []) ≡ patched (codes "xcx", log))) ↔ (
      (valid_edits (both ∷ []) ≡ true)
      × Fits 100 (both ∷ []) source
      × (codes "xcx" ≡ edited (both ∷ []) source))
apply_edits_iff_example = apply_edits_iff 100 source (both ∷ []) (codes "xcx")
