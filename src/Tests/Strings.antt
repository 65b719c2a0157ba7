-- ===== src/Tests/Strings.antt =====
-- internal/jsstr on short strings.
use pages.Common.{
  All, Text, [], arith, codes, false, if◌then◌else◌, inl, inr, leb, map, refl, ℕ, ◌&&◌, ◌+◌, ◌↔◌,
  ◌∷◌, ◌≡◌,
}
use pages.Jsstr.{encode, is_space, slice, trim}
use pages.Jsstr.Order.{compare_texts, compare_texts-encode, compare_units, precedes}
use pages.Jsstr.Units.{IsScalar}
use pages.Versions.Args.{contains, normalize_slug, ok, str}
use pages.Versions.Effects.Slugs.{IsSlug, normalize_slug_iff, separates, stops}

-- U+1F600 has two code units, and a cut between them leaves U+FFFD.
split_pair : slice (97 ∷ 0x1f600 ∷ []) 0 2 ≡ 97 ∷ 0xfffd ∷ []
unfolding slice
split_pair = refl

abbrev short : Text
short = 97 ∷ 0x1f600 ∷ []

short-IsScalar : All IsScalar short
short-IsScalar = ((omega arith, inl (omega arith)), ((omega arith, inr (omega arith)), tt))

lower : ℕ → ℕ
lower c = if leb 65 c && leb c 90 then c + 32 else c

normalize_slug_iff_example : (normalize_slug lower (str (codes " A-b")) ≡ ok (codes "a-b")) ↔ (
    (contains 0x130 (trim (codes " A-b")) ≡ false)
    × (map lower (trim (codes " A-b")) ≡ codes "a-b")
    × IsSlug (codes "a-b"))
normalize_slug_iff_example = normalize_slug_iff lower (codes " A-b") (codes "a-b")

-- The slug is accepted.
normalized : normalize_slug lower (str (codes " A-b")) ≡ ok (codes "a-b")
normalized = (normalize_slug_iff lower (codes " A-b") (codes "a-b")).1 (
  unfold trim is_space contains in refl,
  unfold trim is_space lower in refl,
  (refl, separates refl refl stops),
)

-- U+1F600 comes before U+E000 by code units.
abbrev smile : Text
smile = 0x1f600 ∷ []

abbrev private_use : Text
private_use = 0xe000 ∷ []

smile_first : compare_texts smile private_use ≡ precedes
unfolding compare_texts
smile_first = refl

compare_texts-encode_example :
    compare_texts smile private_use ≡ compare_units (encode smile) (encode private_use)
compare_texts-encode_example =
    compare_texts-encode smile private_use ((omega arith, inr (omega arith)), tt)
      ((omega arith, inr (omega arith)), tt)
