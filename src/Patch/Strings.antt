-- ===== src/Patch/Strings.antt =====
-- The functions of package `strings` that internal/pagepatch calls, for a needle that is not empty.
-- A string is the list of its code points: it is valid UTF-8, where a match of bytes is a match of
-- code points.
use pages.Common.{
  Bool, List, Text, [], false, length, suc, true, zero, ℕ, ◌&&◌, ◌++◌, ◌-◌, ◌==◌, ◌∷◌,
}

unfoldable pub is_prefix : Text → Text → Bool
is_prefix [] s = true
is_prefix (n ∷ ns) [] = false
is_prefix (n ∷ ns) (x ∷ xs) = x == n && is_prefix ns xs

-- The pieces of `s` between the matches of `needle`, which are found from the left and do not
-- overlap. The first `skip` characters belong to the last match. `strings.Split`
unfoldable pub split_from : Text → ℕ → Text → Text × List Text
unfolding is_prefix
split_from needle skip [] = ([], [])
split_from needle (suc skip) (x ∷ xs) = split_from needle skip xs
split_from needle zero (x ∷ xs) = elim (is_prefix needle (x ∷ xs)) [
  | true ↦ let (piece, more) = split_from needle (length needle - 1) xs in ([], piece ∷ more)
  | false ↦ let (piece, more) = split_from needle zero xs in (x ∷ piece, more)
]

-- `strings.Count`
unfoldable pub count_from : Text → ℕ → Text → ℕ
unfolding is_prefix
count_from needle skip [] = 0
count_from needle (suc skip) (x ∷ xs) = count_from needle skip xs
count_from needle zero (x ∷ xs) = elim (is_prefix needle (x ∷ xs)) [
  | true ↦ suc (count_from needle (length needle - 1) xs)
  | false ↦ count_from needle zero xs
]

-- `strings.ReplaceAll`
unfoldable pub replace_from : Text → Text → ℕ → Text → Text
unfolding is_prefix
replace_from needle new skip [] = []
replace_from needle new (suc skip) (x ∷ xs) = replace_from needle new skip xs
replace_from needle new zero (x ∷ xs) = elim (is_prefix needle (x ∷ xs)) [
  | true ↦ new ++ replace_from needle new (length needle - 1) xs
  | false ↦ x ∷ replace_from needle new zero xs
]

-- What stands before the first match: `text[:strings.Index(text, needle)]`.
unfoldable pub before_first : Text → Text → Text
unfolding is_prefix
before_first needle [] = []
before_first needle (x ∷ xs) = elim (is_prefix needle (x ∷ xs)) [
  | true ↦ []
  | false ↦ x ∷ before_first needle xs
]

-- `strings.Join`, of the pieces of a split.
abbrev pub join_more : Text → List Text → Text
join_more sep [] = []
join_more sep (p ∷ ps) = sep ++ (p ++ join_more sep ps)

abbrev pub join : Text → Text × List Text → Text
join sep (p, ps) = p ++ join_more sep ps
