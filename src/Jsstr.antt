-- ===== src/Jsstr.antt =====
-- internal/jsstr/jsstr.go: strings measured and cut as JavaScript does. A text is the list of the
-- code points that Go decodes from the string; the code units of UTF-16 are numbers below 2^16.
pub mod Units
pub mod Order
use mathlib.Core.List.{reverse}
use pages.Common.{
  ℕ, zero, suc, ◌+◌, ◌-◌, ◌*◌, ◌/◌, ◌%◌, Bool, true, false, ◌&&◌, ◌||◌, List, [], ◌∷◌, ◌++◌, Text,
  leb, ltb, ◌==◌, if◌then◌else◌, take, drop, length,
}

-- `IsSpace`
unfoldable pub is_space : ℕ → Bool
is_space r =
    leb 9 r && leb r 13
    || r == 0x20
    || r == 0xa0
    || r == 0x1680
    || r == 0x2028
    || r == 0x2029
    || r == 0x202f
    || r == 0x205f
    || r == 0x3000
    || r == 0xfeff
    || leb 0x2000 r && leb r 0x200a

unfoldable pub trim_left : Text → Text
trim_left [] = []
trim_left (r ∷ rs) = if is_space r then trim_left rs else r ∷ rs

-- `Trim`
unfoldable pub trim : Text → Text
unfolding trim_left
trim s = reverse (trim_left (reverse (trim_left s)))

abbrev pub units_of : ℕ → ℕ
units_of r = if leb 0x10000 r then 2 else 1

-- `UTF16Len`
unfoldable pub utf16_len : Text → ℕ
utf16_len [] = 0
utf16_len (r ∷ rs) = units_of r + utf16_len rs

-- `len(s)`: the bytes of the UTF-8 form.
unfoldable pub utf8_len : Text → ℕ
utf8_len [] = 0
utf8_len (r ∷ rs) =
    (if ltb r 0x80 then 1 else if ltb r 0x800 then 2 else if ltb r 0x10000 then 3 else 4)
    + utf8_len rs

abbrev pub encode_rune : ℕ → List ℕ → List ℕ
encode_rune r rest =
    if leb 0x10000 r
    then (0xd800 + (r - 0x10000) / 0x400) ∷ (0xdc00 + (r - 0x10000) % 0x400) ∷ rest
    else r ∷ rest

-- `utf16.Encode([]rune(s))`
unfoldable pub encode : Text → List ℕ
encode [] = []
encode (r ∷ rs) = encode_rune r (encode rs)

abbrev pub is_high : ℕ → Bool
is_high u = leb 0xd800 u && ltb u 0xdc00

abbrev pub is_low : ℕ → Bool
is_low u = leb 0xdc00 u && ltb u 0xe000

-- `string(utf16.Decode(units))`: a pair is one code point, a surrogate with no partner is U+FFFD.
unfoldable pub decode : List ℕ → Text
decode [] = []
decode (u ∷ []) = (if is_high u || is_low u then 0xfffd else u) ∷ []
decode (u ∷ v ∷ us) =
    let pair = (0x10000 + (u - 0xd800) * 0x400 + (v - 0xdc00)) ∷ decode us in
    let single = (if is_high u || is_low u then 0xfffd else u) ∷ decode (v ∷ us) in
    if is_high u && is_low v then pair else single

-- `Slice`, for bounds that are not negative.
unfoldable pub slice : Text → ℕ → ℕ → Text
unfolding utf8_len encode decode
slice s start end =
    if start == 0 && leb (utf8_len s) end then s else decode (drop start (take end (encode s)))
