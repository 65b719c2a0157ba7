-- ===== src/Jsonv/Reading.antt =====
-- internal/jsonv/jsonv.go: what `FormatNumber` writes is a literal of the number's shortest decimal.
use pages.Common.{
  Bool, Bool-cases, Option, [], arith, drop, false, if◌then◌else◌, inl, inr, leb, length, ltb,
  ltb→lt, none, refl, some, suc, take, true, zero, ℕ, ◌%◌, ◌&&◌, ◌*◌, ◌++◌, ◌+◌, ◌-◌, ◌/◌, ◌<◌, ◌∷◌,
  ◌≡◌,
}
use pages.Common.Strings.{decimal_value, only_digits}
use pages.Jsonv.Numbers.{
  Doubles, itoa, neg_part, negsuc, pos, pos_part, regular, signed_value, up_one, zero_number, zeros,
  ℤ,
}
use pages.Jsonv.Numerals.{IsLiteral, Literal, literal_text}
use pages.Jsonv.Utf8.{Bytes, lead}

-- e - n
abbrev pub minus_ℕ : ℤ → ℕ → ℤ
minus_ℕ (pos a) n = if leb n a then pos (a - n) else negsuc (n - a - 1)
minus_ℕ (negsuc a) n = negsuc (a + n)

abbrev pub exponent_value : Option (ℕ × Bytes) → ℤ
exponent_value none = pos 0
exponent_value (some (sign, digits)) = signed_value (sign ∷ digits)

-- The number of a literal is its coefficient times ten to its scale.
abbrev pub coefficient : Literal → ℕ
coefficient l = decimal_value 0 (l.whole ++ l.fraction)

abbrev pub scale : Literal → ℤ
scale l = minus_ℕ (exponent_value l.exponent) (length l.fraction)

-- `FormatFloat(f, 'e', -1, 64)`: a digit that is not zero, the other digits after a point, an exponent.
abbrev pub mantissa_text : ℕ → Bytes → Bytes
mantissa_text lead [] = lead ∷ []
mantissa_text lead (c ∷ cs) = lead ∷ b'.' ∷ c ∷ cs

pub record Form (text : Bytes) : Type 0 where
  pub leading : ℕ
  pub more : Bytes
  pub shown : Bytes
  pub leading_ok : (leb b'1' leading && leb leading b'9') ≡ true
  pub more_ok : only_digits more ≡ true
  pub bounded : (pos_part (signed_value shown) < 1000) × (neg_part (signed_value shown) < 1000)
  pub text_ok : text ≡ mantissa_text leading more ++ b'e' ∷ shown

-- What package strconv documents. ParseFloat of a literal depends on its number only: it is `nearest`
-- of the sign, the coefficient and the scale. FormatFloat with the smallest number of digits reads
-- back as the same double.
pub record Rounds (F : Doubles) : Type 0 where
  pub nearest : Bool → ℕ → ℤ → F.Double
  pub nearest_scale : (s : Bool) (m : ℕ) (e : ℤ) → nearest s (m * 10) e ≡ nearest s m (up_one e)
  pub parse_literal :
      (l : Literal)
      → IsLiteral l
      → F.parse_float (literal_text l) ≡ some (nearest l.negative (coefficient l) (scale l))
  pub nearest_zero : F.kind_of (nearest false 0 (pos 0)) ≡ zero_number
  pub form : (d : F.Double) (s : Bool) → F.kind_of d ≡ regular s → Form (F.format_float d)
  pub form_exact :
      (d : F.Double) (s : Bool) (k : F.kind_of d ≡ regular s)
      → let f = form d s k in
        nearest s
          (decimal_value 0 (f.leading ∷ f.more))
          (minus_ℕ (signed_value f.shown) (length f.more))
        ≡ d

-- Digits.
pub only_digits-append :
    (a b : Bytes) → only_digits a ≡ true → only_digits b ≡ true → only_digits (a ++ b) ≡ true
unfolding only_digits
only_digits-append [] b h k = k
only_digits-append (c ∷ a) b h k =
    let first : (leb 48 c && leb c 57) ≡ true = ground arith in
    let rest : only_digits a ≡ true = ground arith in rw (first) (only_digits-append a b rest k)

pub only_digits-zeros : (n : ℕ) → only_digits (zeros n) ≡ true
unfolding only_digits
only_digits-zeros zero = refl
only_digits-zeros (suc n) = only_digits-zeros n

pub only_digits-take : (n : ℕ) (a : Bytes) → only_digits a ≡ true → only_digits (take n a) ≡ true
unfolding only_digits
only_digits-take zero a h = refl
only_digits-take (suc n) [] h = refl
only_digits-take (suc n) (c ∷ a) h = let ih = only_digits-take n a in ground arith

pub only_digits-drop : (n : ℕ) (a : Bytes) → only_digits a ≡ true → only_digits (drop n a) ≡ true
unfolding only_digits
only_digits-drop zero a h = h
only_digits-drop (suc n) [] h = refl
only_digits-drop (suc n) (c ∷ a) h = only_digits-drop n a (ground arith)

pub decimal_value-append :
    (v : ℕ) (a b : Bytes) → decimal_value v (a ++ b) ≡ decimal_value (decimal_value v a) b
unfolding decimal_value
decimal_value-append v [] b = refl
decimal_value-append v (c ∷ a) b = decimal_value-append (v * 10 + (c - 48)) a b

pub decimal_value-zeros : (n : ℕ) (a : Bytes) → decimal_value 0 (zeros n ++ a) ≡ decimal_value 0 a
unfolding decimal_value
decimal_value-zeros zero a = refl
decimal_value-zeros (suc n) a = decimal_value-zeros n a

pub itoa-digits : (f n : ℕ) → only_digits (itoa f n) ≡ true
unfolding itoa
itoa-digits zero n = unfold only_digits in refl
itoa-digits (suc f) n = elim (Bool-cases (ltb n 10)) [
  | inl small ↦ let l = ltb→lt n 10 small in rw small (unfold only_digits in ground arith)
  | inr large ↦ rw large (
      only_digits-append (itoa f (n / 10)) ((b'0' + n % 10) ∷ []) (itoa-digits f (n / 10))
        (unfold only_digits in ground arith))
]

abbrev pub ten_to : ℕ → ℕ
ten_to zero = 1
ten_to (suc f) = 10 * ten_to f

pub decimal_value-itoa : (f n : ℕ) → n < ten_to f → decimal_value 0 (itoa f n) ≡ n
unfolding itoa
decimal_value-itoa zero n h = unfold decimal_value in omega arith
decimal_value-itoa (suc f) n h = elim (Bool-cases (ltb n 10)) [
  | inl small ↦ rw small (unfold decimal_value in omega arith)
  | inr large ↦
      rw
        (
          large,
          decimal_value-append 0 (itoa f (n / 10)) ((b'0' + n % 10) ∷ []),
          decimal_value-itoa f (n / 10) (omega arith),
        )
        (unfold decimal_value in omega arith)
]
