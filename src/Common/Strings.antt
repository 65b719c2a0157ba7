-- ===== src/Common/Strings.antt =====
-- The functions of Go's package `strings` that the program calls, on texts of code points.
use pages.Common.{
  ℕ, ◌+◌, ◌-◌, ◌*◌, Bool, true, false, ◌&&◌, ◌||◌, List, [], ◌∷◌, ◌++◌, Text, leb, ltb, ◌==◌,
  if◌then◌else◌, Option, none, some,
}

-- `len`: the bytes of its UTF-8.
unfoldable pub byte_len : Text → ℕ
byte_len [] = 0
byte_len (c ∷ cs) =
    (if ltb c 128 then 1 else (if ltb c 2048 then 2 else (if ltb c 65536 then 3 else 4)))
    + byte_len cs

-- `unicode.IsSpace`
abbrev pub is_white : ℕ → Bool
is_white c =
    leb 9 c && leb c 13
    || c == 32
    || c == 133
    || c == 160
    || c == 5760
    || leb 8192 c && leb c 8202
    || c == 8232
    || c == 8233
    || c == 8239
    || c == 8287
    || c == 12288

-- `strings.Fields`, after `current` of a field.
unfoldable pub fields_from : Text → Text → List Text
fields_from [] [] = []
fields_from (x ∷ xs) [] = (x ∷ xs) ∷ []
fields_from [] (c ∷ cs) = if is_white c then fields_from [] cs else fields_from (c ∷ []) cs
fields_from (x ∷ xs) (c ∷ cs) =
    if is_white c then (x ∷ xs) ∷ fields_from [] cs else fields_from (x ∷ xs ++ c ∷ []) cs

-- `strings.Split` at one character, which also gives the first piece on its own.
unfoldable pub split_at : ℕ → Text → Text × List Text
split_at sep [] = ([], [])
split_at sep (c ∷ cs) =
    let (piece, more) = split_at sep cs in
    if c == sep then ([], piece ∷ more) else (c ∷ piece, more)

-- `strings.Cut` and `strings.IndexByte`: what stands before a character and after its first place.
unfoldable pub cut_at : ℕ → Text → Text × Option Text
cut_at sep [] = ([], none)
cut_at sep (c ∷ cs) =
    let (before, after) = cut_at sep cs in if c == sep then ([], some cs) else (c ∷ before, after)

unfoldable pub only_digits : Text → Bool
only_digits [] = true
only_digits (c ∷ cs) = leb 48 c && leb c 57 && only_digits cs

-- `strconv.Atoi`, of digits.
unfoldable pub decimal_value : ℕ → Text → ℕ
decimal_value n [] = n
decimal_value n (c ∷ cs) = decimal_value (n * 10 + (c - 48)) cs

-- `strings.Contains`, of one character.
unfoldable pub has_char : ℕ → Text → Bool
has_char sep [] = false
has_char sep (c ∷ cs) = c == sep || has_char sep cs

-- `strings.TrimSpace`
unfoldable pub trim_start : Text → Text
trim_start [] = []
trim_start (c ∷ cs) = if is_white c then trim_start cs else c ∷ cs

unfoldable pub trim_end : Text → Text
trim_end [] = []
trim_end (c ∷ cs) = let rest = trim_end cs in end_of c rest
  where
    end_of : ℕ → Text → Text
    end_of c [] = if is_white c then [] else c ∷ []
    end_of c (d ∷ ds) = c ∷ d ∷ ds

unfoldable pub trim_space : Text → Text
unfolding trim_start trim_end
trim_space s = trim_end (trim_start s)
