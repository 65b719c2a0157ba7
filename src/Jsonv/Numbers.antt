-- ===== src/Jsonv/Numbers.antt =====
-- internal/jsonv/jsonv.go: numbers, read and written. What package strconv does with a double is a
-- parameter.
use pages.Common.{
  Bool, Option, [], codes, drop, if◌then◌else◌, leb, length, ltb, none, some, suc, take, zero, ℕ,
  ◌%◌, ◌&&◌, ◌++◌, ◌+◌, ◌-◌, ◌/◌, ◌==◌, ◌∷◌,
}
use pages.Common.Strings.{cut_at, decimal_value}
use pages.Jsonv.Utf8.{Bytes}

-- `negsuc n` is -(n + 1).
pub data ℤ : Type 0 where
  pos : ℕ → ℤ
  negsuc : ℕ → ℤ

abbrev pub pos_part : ℤ → ℕ
pos_part (pos n) = n
pos_part (negsuc n) = 0

abbrev pub neg_part : ℤ → ℕ
neg_part (pos n) = 0
neg_part (negsuc n) = suc n

-- The cases of `FormatNumber`'s first switch, and the sign of the others.
pub data Kind : Type 0 where
  not_a_number : Kind
  infinite : Bool → Kind
  zero_number : Kind
  regular : Bool → Kind

-- Go's `float64`: `ParseFloat`, with `none` for an error that is not ErrRange, what the tests of
-- `FormatNumber` say of a double, and `FormatFloat(f, 'e', -1, 64)` of its absolute value.
pub record Doubles : Type 1 where
  pub Double : Type 0
  pub parse_float : Bytes → Option Double
  pub kind_of : Double → Kind
  pub format_float : Double → Bytes

-- `strings.Repeat("0", n)`
abbrev pub zeros : ℕ → Bytes
zeros zero = []
zeros (suc n) = b'0' ∷ zeros n

-- `strings.Replace(mant, ".", "", 1)`
unfoldable pub without_point : Bytes → Bytes
without_point [] = []
without_point (c ∷ cs) = if c == b'.' then cs else c ∷ without_point cs

-- `strconv.Atoi` of the exponent, which has a sign.
unfoldable pub signed_value : Bytes → ℤ
unfolding decimal_value
signed_value [] = pos 0
signed_value (c ∷ cs) =
    if c == b'-'
    then elim (decimal_value 0 cs) [ zero ↦ pos 0 | suc n ↦ negsuc n ]
    else if c == b'+'
    then pos (decimal_value 0 cs)
    else pos (decimal_value 0 (c ∷ cs))

-- `exp + 1`
abbrev pub up_one : ℤ → ℤ
up_one (pos n) = pos (suc n)
up_one (negsuc zero) = pos 0
up_one (negsuc (suc n)) = negsuc n

-- `strconv.Itoa` of a number that is not negative, which has `fuel` digits at most.
unfoldable pub itoa : ℕ → ℕ → Bytes
itoa zero n = []
itoa (suc fuel) n =
    let more = itoa fuel (n / 10) in
    if ltb n 10 then (b'0' + n) ∷ [] else more ++ (b'0' + n % 10) ∷ []

-- The exponential forms; the exponent of a double has three digits at most.
unfoldable pub exponential : Bytes → ℕ → ℕ → Bytes
unfolding itoa
exponential [] sign ex = b'e' ∷ sign ∷ itoa 5 ex
exponential (d ∷ []) sign ex = d ∷ b'e' ∷ sign ∷ itoa 5 ex
exponential (d ∷ e ∷ ds) sign ex = d ∷ b'.' ∷ e ∷ ds ++ b'e' ∷ sign ∷ itoa 5 ex

-- The second switch of `FormatNumber`: the digits, and the place of the decimal point.
unfoldable pub layout : Bytes → ℤ → Bytes
unfolding exponential
layout digits (pos n) =
    if leb (length digits) n && leb n 21
    then digits ++ zeros (n - length digits)
    else if ltb 0 n && leb n 21
    then take n digits ++ b'.' ∷ drop n digits
    else if n == 0
    then b'0' ∷ b'.' ∷ digits
    else exponential digits b'+' (n - 1)
layout digits (negsuc m) =
    if ltb (m + 1) 6 then b'0' ∷ b'.' ∷ zeros (m + 1) ++ digits else exponential digits b'-' (m + 2)

-- `FormatNumber` of the shortest form of a double that is not zero and is finite.
unfoldable pub regular_text : Bool → Bytes → Bytes
unfolding cut_at without_point signed_value layout
regular_text negative form =
    let (mantissa, exponent) = cut_at b'e' form in
    let n = up_one (elim exponent [ none ↦ pos 0 | some t ↦ signed_value t ]) in
    let text = layout (without_point mantissa) n in if negative then b'-' ∷ text else text

module _ (F : Doubles) where
  open F use {Double, parse_float, kind_of, format_float}

  -- `FormatNumber`
  unfoldable pub format_number : Double → Bytes
  unfolding regular_text
  format_number d = elim (kind_of d) [
    | not_a_number ↦ codes "NaN"
    | infinite negative ↦ if negative then codes "-Infinity" else codes "Infinity"
    | zero_number ↦ codes "0"
    | regular negative ↦ regular_text negative (format_float d)
  ]

  -- `writeNumber`
  unfoldable pub write_number : Double → Bytes
  unfolding format_number
  write_number d = elim (kind_of d) [
    | not_a_number ↦ codes "null"
    | infinite _ ↦ codes "null"
    | _ ↦ format_number d
  ]
