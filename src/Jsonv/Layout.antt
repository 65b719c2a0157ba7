-- ===== src/Jsonv/Layout.antt =====
-- internal/jsonv/jsonv.go: each layout of `FormatNumber` is a literal of the same number.
use pages.Common.{
  Bool, [], ap, arith, drop, inl, inr, leb, length, length-append, length-drop, none, refl, some,
  suc, take, take-append-drop, true, zero, ℕ, ◌&&◌, ◌*◌, ◌++◌, ◌+◌, ◌-◌, ◌<◌, ◌==◌, ◌||◌, ◌∙◌, ◌∷◌,
  ◌≡◌,
}
use pages.Common.Strings.{decimal_value, only_digits}
use pages.Jsonv.Numbers.{Doubles, exponential, itoa, negsuc, pos, signed_value, zeros, ℤ}
use pages.Jsonv.Numerals.{IsExponent, IsLiteral, Literal, fraction_text, literal_text, sign_text}
use pages.Jsonv.Reading.{
  Rounds, coefficient, decimal_value-append, decimal_value-zeros, minus_ℕ, only_digits-append,
  only_digits-drop, only_digits-take, only_digits-zeros, scale,
}
use pages.Jsonv.Utf8.{Bytes}
use mathlib.Core.List.{append-nil}

module _ {F : Doubles} (R : Rounds F) (s : Bool) (lead : ℕ) (more : Bytes) where
  -- A text is a literal of the digits with a power of ten.
  abbrev pub Shows : ℤ → Bytes → Type 0
  Shows x t =
      (l : Literal) × (literal_text l ≡ sign_text s ++ t)
      × IsLiteral l
      × (R.nearest l.negative (coefficient l) (scale l)
          ≡ R.nearest s (decimal_value 0 (lead ∷ more)) (minus_ℕ x (length more)))

length-zeros : (n : ℕ) → length (zeros n) ≡ n
length-zeros zero = refl
length-zeros (suc n) = omega (arith, length-zeros n)

module _ {F : Doubles} (R : Rounds F) (s : Bool) where
  nearest-zeros :
      (m z e : ℕ) → R.nearest s (decimal_value m (zeros z)) (pos e) ≡ R.nearest s m (pos (z + e))
  unfolding decimal_value
  nearest-zeros m zero e = ap (λ n. R.nearest s m (pos n)) (omega arith)
  nearest-zeros m (suc z) e =
      let added : m * 10 + (b'0' - 48) ≡ m * 10 = omega arith in
      let count : suc (z + e) ≡ suc z + e = omega arith in
      rw (decimal_value, added)
        (nearest-zeros (m * 10) z e
          ∙ (R.nearest_scale s m (pos (z + e)) ∙ ap (λ n. R.nearest s m (pos n)) count))

module _ {F : Doubles} (R : Rounds F) (s : Bool) (lead : ℕ) (more : Bytes)
    (first : (leb b'1' lead && leb lead b'9') ≡ true) (digits : only_digits more ≡ true) where
  all_digits : only_digits (lead ∷ more) ≡ true
  unfolding only_digits
  all_digits = ground arith

  -- The digits, then zeros.
  pub whole-Shows : (z : ℕ) → Shows R s lead more (pos (length more + z)) ((lead ∷ more) ++ zeros z)
  whole-Shows z = (
    record { negative = s; whole = (lead ∷ more) ++ zeros z; fraction = []; exponent = none },
    ap (λ t. sign_text s ++ t) (append-nil _),
    record {
      whole_ok = inr (first, only_digits-append more (zeros z) digits (only_digits-zeros z));
      fraction_ok = unfold only_digits in refl;
      exponent_ok = tt;
    },
    rw (append-nil, decimal_value-append 0 (lead ∷ more) (zeros z))
        (nearest-zeros R s (decimal_value 0 (lead ∷ more)) z 0
          ∙ ap (R.nearest s (decimal_value 0 (lead ∷ more))) (
              let p : pos (z + 0) ≡ minus_ℕ (pos (length more + z)) (length more) = ground arith in
              p)),
  )

  -- A point among the digits.
  pub point-Shows :
      (n : ℕ)
      → n < length more
      → Shows R s lead more
          (pos n)
          (take (suc n) (lead ∷ more) ++ b'.' ∷ drop (suc n) (lead ∷ more))
  point-Shows n h =
      let kept = only_digits-take n more digits in
      let after = only_digits-drop n more digits in
      let count = length-drop n more in
      (
        record {
          negative = s;
          whole = lead ∷ take n more;
          fraction = drop n more;
          exponent = none;
        },
        ap (λ t. sign_text s ++ (lead ∷ take n more ++ t)) (with_point (drop n more) (omega arith)),
        record { whole_ok = inr (first, kept); fraction_ok = after; exponent_ok = tt },
        rw (take-append-drop n more) (
            ap (R.nearest s (decimal_value 0 (lead ∷ more))) (
              let p : minus_ℕ (pos 0) (length (drop n more)) ≡ minus_ℕ (pos n) (length more) =
                ground arith in
              p)),
      )
    where
      with_point : (f : Bytes) → 0 < length f → fraction_text f ++ [] ≡ b'.' ∷ f
      with_point [] p = absurd (omega arith)
      with_point (c ∷ cs) p = append-nil _

  -- Zeros before the digits.
  pub small-Shows :
      (j : ℕ) → Shows R s lead more (negsuc j) (b'0' ∷ b'.' ∷ zeros j ++ (lead ∷ more))
  small-Shows j =
      let count = length-append (zeros j) (lead ∷ more) in
      (
        record {
          negative = s;
          whole = b'0' ∷ [];
          fraction = zeros j ++ (lead ∷ more);
          exponent = none;
        },
        ap (λ t. sign_text s ++ (b'0' ∷ t)) (with_point j),
        record {
          whole_ok = inl (refl, refl);
          fraction_ok = only_digits-append (zeros j) (lead ∷ more) (only_digits-zeros j) all_digits;
          exponent_ok = tt;
        },
        rw (decimal_value-zeros (suc j) (lead ∷ more)) (
            ap (R.nearest s (decimal_value 0 (lead ∷ more))) (
              let p : minus_ℕ (pos 0) (length (zeros j ++ (lead ∷ more)))
                  ≡ minus_ℕ (negsuc j) (length more) =
                ground (arith, length-zeros j) in
              p)),
      )
    where
      with_point :
          (i : ℕ) → fraction_text (zeros i ++ (lead ∷ more)) ++ [] ≡ b'.' ∷ zeros i ++ (lead ∷ more)
      with_point zero = append-nil _
      with_point (suc i) = append-nil _

  -- One digit before the point, and an exponent.
  pub exponential-Shows :
      (sign ex : ℕ) (x : ℤ)
      → (sign == b'+' || sign == b'-') ≡ true
      → signed_value (sign ∷ itoa 5 ex) ≡ x
      → IsExponent (some (sign, itoa 5 ex))
      → Shows R s lead more x (exponential (lead ∷ more) sign ex)
  exponential-Shows sign ex x h e shown = (
    record { negative = s; whole = lead ∷ []; fraction = more; exponent = some (sign, itoa 5 ex) },
    ap (λ t. sign_text s ++ t) (text more),
    record {
      whole_ok = inr (first, unfold only_digits in refl);
      fraction_ok = digits;
      exponent_ok = shown;
    },
    ap (λ y. R.nearest s (decimal_value 0 (lead ∷ more)) (minus_ℕ y (length more))) e,
  )
    where
      text :
          (m : Bytes)
          → lead ∷ (fraction_text m ++ (b'e' ∷ sign ∷ itoa 5 ex)) ≡ exponential (lead ∷ m) sign ex
      text [] = unfold exponential in refl
      text (c ∷ cs) = unfold exponential in refl
