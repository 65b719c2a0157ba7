-- ===== src/Jsonv/Literals.antt =====
-- internal/jsonv/jsonv.go: the text that `FormatNumber` gives is read back as the same double.
use pages.Common.{
  Bool, Bool-cases, [], ap, arith, false, if◌then◌else◌, inl, inr, leb, length, length-append, ltb,
  refl, some, suc, sym, true, zero, ℕ, ◌%◌, ◌&&◌, ◌++◌, ◌+◌, ◌-◌, ◌/◌, ◌<◌, ◌==◌, ◌||◌, ◌∙◌, ◌∷◌,
  ◌≡◌,
}
use pages.Common.Strings.{cut_at, only_digits}
use pages.Jsonv.Layout.{Shows, exponential-Shows, point-Shows, small-Shows, whole-Shows}
use pages.Jsonv.Numbers.{
  Doubles, format_number, itoa, layout, neg_part, negsuc, pos, pos_part, regular, regular_text,
  signed_value, up_one, without_point, zeros, ℤ,
}
use pages.Jsonv.Numerals.{
  Delimited, IsExponent, IsLiteral, Literal, literal_text, number_literal-text, sign_text,
}
use pages.Jsonv.Parse.{number_value}
use pages.Jsonv.Reading.{
  Form, Rounds, coefficient, decimal_value-itoa, itoa-digits, mantissa_text, scale,
}
use pages.Jsonv.Utf8.{Bytes}
use pages.Jsonv.Values.{num, ok}
use mathlib.Core.Path.{subst}

IsExponent-digits :
    (sign : ℕ) (t : Bytes)
    → (sign == b'+' || sign == b'-') ≡ true
    → only_digits t ≡ true
    → 0 < length t
    → IsExponent (some (sign, t))
IsExponent-digits sign [] h d p = absurd (omega arith)
IsExponent-digits sign (c ∷ cs) h d p = (h, d)

length-itoa : (f n : ℕ) → 0 < length (itoa (suc f) n)
unfolding itoa
length-itoa f n = elim (Bool-cases (ltb n 10)) [
  | inl small ↦ rw small (omega arith)
  | inr large ↦ rw large (omega (arith, length-append (itoa f (n / 10)) ((b'0' + n % 10) ∷ [])))
]

IsExponent-itoa :
    (sign n : ℕ) → (sign == b'+' || sign == b'-') ≡ true → IsExponent (some (sign, itoa 5 n))
IsExponent-itoa sign n h = IsExponent-digits sign (itoa 5 n) h (itoa-digits 5 n) (length-itoa 4 n)

signed_value-plus : (n : ℕ) → n < 100000 → signed_value (b'+' ∷ itoa 5 n) ≡ pos n
unfolding signed_value
signed_value-plus n h = ap pos (decimal_value-itoa 5 n (omega arith))

signed_value-minus : (n : ℕ) → suc n < 100000 → signed_value (b'-' ∷ itoa 5 (suc n)) ≡ negsuc n
unfolding signed_value
signed_value-minus n h = rw (decimal_value-itoa 5 (suc n) (omega arith)) refl

module _ {F : Doubles} (R : Rounds F) (s : Bool) (lead : ℕ) (more : Bytes)
    (first : (leb b'1' lead && leb lead b'9') ≡ true) (digits : only_digits more ≡ true) where
  large-Shows :
      (a : ℕ) → a < 1000 → Shows R s lead more (pos a) (layout (lead ∷ more) (pos (suc a)))
  unfolding layout
  large-Shows a b =
      let above : ltb 0 (suc a) ≡ true = ground arith in
      let apart : (suc a == 0) ≡ false = ground arith in
      let before : suc a - 1 ≡ a = omega arith in
      elim (Bool-cases (leb (length (lead ∷ more)) (suc a) && leb (suc a) 21)) [
        | inl whole ↦
            let z = suc a - length (lead ∷ more) in
            let sum : length more + z ≡ a = ground arith in
            rw whole (
              subst (λ n. Shows R s lead more (pos n) ((lead ∷ more) ++ zeros z)) sum
                (whole-Shows R s lead more first digits z))
        | inr other ↦
            rw (other, above)
              (elim (Bool-cases (leb (suc a) 21)) [
                | inl short ↦
                    let inside : a < length more = ground arith in
                    rw short (point-Shows R s lead more first digits a inside)
                | inr long ↦
                    rw (long, apart, before)
                      (exponential-Shows R s lead more first digits b'+' a (pos a) refl
                        (signed_value-plus a (omega arith)) (IsExponent-itoa b'+' a refl))
              ])
      ]

  small_layout-Shows :
      (m : ℕ) → m < 1000 → Shows R s lead more (negsuc (suc m)) (layout (lead ∷ more) (negsuc m))
  unfolding layout
  small_layout-Shows m b =
      let one : m + 1 ≡ suc m = omega arith in
      let two : m + 2 ≡ suc (suc m) = omega arith in
      rw (one, two)
        (elim (Bool-cases (ltb (suc m) 6)) [
          | inl near ↦ rw near (small-Shows R s lead more first digits (suc m))
          | inr far ↦ rw far (
              exponential-Shows R s lead more first digits b'-' (suc (suc m)) (negsuc (suc m)) refl
                (signed_value-minus (suc m) (omega arith))
                (IsExponent-itoa b'-' (suc (suc m)) refl))
        ])

  -- Every layout shows the number.
  pub layout-Shows :
      (x : ℤ)
      → pos_part x < 1000
      → neg_part x < 1000
      → Shows R s lead more x (layout (lead ∷ more) (up_one x))
  layout-Shows (pos a) p n = large-Shows a p
  layout-Shows (negsuc zero) p n =
      let above : leb (suc (length more)) 0 ≡ false = ground arith in
      unfold layout in rw above (small-Shows R s lead more first digits 0)
  layout-Shows (negsuc (suc m)) p n = small_layout-Shows m (omega arith)

cut_at-digits :
    (t after : Bytes) → only_digits t ≡ true → cut_at b'e' (t ++ b'e' ∷ after) ≡ (t, some after)
unfolding cut_at only_digits
cut_at-digits [] after h = refl
cut_at-digits (c ∷ cs) after h =
    let other : (c == b'e') ≡ false = ground arith in
    let digits : only_digits cs ≡ true = ground arith in
    rw (cut_at-digits cs after digits, other) refl

cut_at-cons :
    (c : ℕ) (t before after : Bytes)
    → (c == b'e') ≡ false
    → cut_at b'e' t ≡ (before, some after)
    → cut_at b'e' (c ∷ t) ≡ (c ∷ before, some after)
unfolding cut_at
cut_at-cons c t before after h k = rw (k, h) refl

-- The text of a form gives its digits and its exponent.
form_parts :
    {text : Bytes} (f : Form text)
    → (cut_at b'e' text ≡ (mantissa_text f.leading f.more, some f.shown))
      × (without_point (mantissa_text f.leading f.more) ≡ f.leading ∷ f.more)
form_parts {text} f = (
  rw f.text_ok (cut f.leading f.more f.leading_ok f.more_ok),
  point f.leading f.more f.leading_ok,
)
  where
    cut :
        (c : ℕ) (cs : Bytes)
        → (leb b'1' c && leb c b'9') ≡ true
        → only_digits cs ≡ true
        → cut_at b'e' (mantissa_text c cs ++ b'e' ∷ f.shown) ≡ (mantissa_text c cs, some f.shown)
    cut c [] h k = let other : (c == b'e') ≡ false = ground arith in unfold cut_at in rw other refl
    cut c (d ∷ ds) h k =
        let other : (c == b'e') ≡ false = ground arith in
        let inner : cut_at b'e' (d ∷ ds ++ b'e' ∷ f.shown) ≡ (d ∷ ds, some f.shown) =
          cut_at-digits (d ∷ ds) f.shown k in
        cut_at-cons c (b'.' ∷ d ∷ ds ++ b'e' ∷ f.shown) (b'.' ∷ d ∷ ds) f.shown other
          (cut_at-cons b'.' (d ∷ ds ++ b'e' ∷ f.shown) (d ∷ ds) f.shown refl inner)

    point :
        (c : ℕ) (cs : Bytes)
        → (leb b'1' c && leb c b'9') ≡ true
        → without_point (mantissa_text c cs) ≡ c ∷ cs
    point c [] h =
        let other : (c == b'.') ≡ false = ground arith in unfold without_point in rw other refl
    point c (d ∷ ds) h =
        let other : (c == b'.') ≡ false = ground arith in unfold without_point in rw other refl

module _ {F : Doubles} (R : Rounds F) where
  open F use {Double}

  regular_text-layout :
      (s : Bool) {text : Bytes} (f : Form text)
      → regular_text s text
        ≡ sign_text s ++ layout (f.leading ∷ f.more) (up_one (signed_value f.shown))
  unfolding regular_text
  regular_text-layout s f = let (cut, point) = form_parts f in rw (cut, point) (signed s _)
    where
      signed : (b : Bool) (t : Bytes) → (if b then b'-' ∷ t else t) ≡ sign_text b ++ t
      signed true t = refl
      signed false t = refl

  pub format_number-regular :
      (d : Double) (s : Bool)
      → F.kind_of d ≡ regular s
      → format_number F d ≡ regular_text s (F.format_float d)
  unfolding format_number
  format_number-regular d s k = rw (k, format_number) refl

  pub number_value-literal :
      (l : Literal) (rest : Bytes)
      → IsLiteral l
      → Delimited rest
      → number_value F (literal_text l ++ rest)
        ≡ ok (num (R.nearest l.negative (coefficient l) (scale l)), rest)
  unfolding number_value
  number_value-literal l rest good n =
      rw (number_literal-text l rest good n, R.parse_literal l good) refl

  -- What `FormatNumber` writes is a literal, and reads as the double itself.
  pub regular_literal :
      (d : Double) (s : Bool)
      → F.kind_of d ≡ regular s
      → (l : Literal) × (format_number F d ≡ literal_text l)
        × IsLiteral l
        × (R.nearest l.negative (coefficient l) (scale l) ≡ d)
  regular_literal d s k =
      let f = R.form d s k in
      let (l, text, good, same) =
        layout-Shows R s f.leading f.more f.leading_ok f.more_ok (signed_value f.shown) f.bounded.0
          f.bounded.1 in
      (
        l,
        format_number-regular d s k ∙ (regular_text-layout s f ∙ sym text),
        good,
        same ∙ R.form_exact d s k,
      )

  -- A double that is finite and not zero is read back from what `FormatNumber` writes, whatever
  -- follows that is no part of a number, where the double's texts are as `Rounds` says.
  pub number_value-format_number :
      (d : Double) (s : Bool) (rest : Bytes)
      → F.kind_of d ≡ regular s
      → Delimited rest
      → number_value F (format_number F d ++ rest) ≡ ok (num d, rest)
  number_value-format_number d s rest k n =
      let (l, text, good, same) = regular_literal d s k in
      rw (text, number_value-literal l rest good n, same) refl
