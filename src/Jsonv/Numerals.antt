-- ===== src/Jsonv/Numerals.antt =====
-- internal/jsonv/jsonv.go: number literals, and what the parser reads of them.
use pages.Common.{
  Bool, Option, [], arith, false, inl, inr, leb, none, refl, some, true, ℕ, ◌&&◌, ◌++◌, ◌==◌, ◌||◌,
  ◌∷◌, ◌≡◌, ◌⊎◌,
}
use pages.Common.Strings.{only_digits}
use pages.Jsonv.Parse.{
  digit_span, exponent_digits, exponent_part, fraction_part, is_digit_byte, minus_part,
  number_literal, whole_part,
}
use pages.Jsonv.Utf8.{Bytes}
use pages.Jsonv.Values.{ok}
use mathlib.Core.List.{append_assoc}

-- A number literal by its parts.
pub record Literal : Type 0 where
  pub negative : Bool
  pub whole : Bytes
  pub fraction : Bytes
  pub exponent : Option (ℕ × Bytes)

abbrev pub sign_text : Bool → Bytes
sign_text true = b'-' ∷ []
sign_text false = []

abbrev pub fraction_text : Bytes → Bytes
fraction_text [] = []
fraction_text (c ∷ cs) = b'.' ∷ c ∷ cs

abbrev pub exponent_text : Option (ℕ × Bytes) → Bytes
exponent_text none = []
exponent_text (some (sign, digits)) = b'e' ∷ sign ∷ digits

abbrev pub literal_text : Literal → Bytes
literal_text l =
    sign_text l.negative ++ (l.whole ++ (fraction_text l.fraction ++ exponent_text l.exponent))

-- A whole part is `0`, or digits of which the first is not.
abbrev pub IsWhole : Bytes → Type 0
IsWhole [] = ⊥
IsWhole (c ∷ cs) =
    ((c ≡ b'0') × (cs ≡ [])) ⊎ ((leb b'1' c && leb c b'9') ≡ true × (only_digits cs ≡ true))

abbrev pub IsExponent : Option (ℕ × Bytes) → Type 0
IsExponent none = Unit
IsExponent (some (sign, [])) = ⊥
IsExponent (some (sign, c ∷ cs)) =
    ((sign == b'+' || sign == b'-') ≡ true) × (only_digits (c ∷ cs) ≡ true)

pub record IsLiteral (l : Literal) : Type 0 where
  pub whole_ok : IsWhole l.whole
  pub fraction_ok : only_digits l.fraction ≡ true
  pub exponent_ok : IsExponent l.exponent

-- What can follow a literal: the literal does not go on.
abbrev pub Delimited : Bytes → Type 0
Delimited [] = Unit
Delimited (c ∷ _) =
    (is_digit_byte c ≡ false) × ((c == b'.') ≡ false) × ((c == b'e' || c == b'E') ≡ false)

abbrev NoDigit : Bytes → Type 0
NoDigit [] = Unit
NoDigit (c ∷ _) = is_digit_byte c ≡ false

digit_span-digits :
    (ds rest : Bytes) → only_digits ds ≡ true → NoDigit rest → digit_span (ds ++ rest) ≡ (ds, rest)
unfolding digit_span only_digits
digit_span-digits [] [] h n = refl
digit_span-digits [] (c ∷ rest) h n = rw n refl
digit_span-digits (d ∷ ds) rest h n =
    let digit : is_digit_byte d ≡ true = ground arith in
    let more : only_digits ds ≡ true = ground arith in
    rw (digit_span-digits ds rest more n, digit) refl

exponent_part-text :
    (e : Option (ℕ × Bytes)) (rest : Bytes)
    → IsExponent e
    → Delimited rest
    → exponent_part (exponent_text e ++ rest) ≡ ok (exponent_text e, rest)
unfolding exponent_part exponent_digits
exponent_part-text none [] h n = refl
exponent_part-text none (c ∷ rest) h n = rw n.2 refl
exponent_part-text (some (sign, [])) rest h n = absurd h
exponent_part-text (some (sign, c ∷ cs)) rest h n =
    rw (h.0, digit_span-digits (c ∷ cs) rest h.1 (after rest n)) refl
  where
    after : (r : Bytes) → Delimited r → NoDigit r
    after [] m = tt
    after (_ ∷ _) m = m.0

-- What stands after a whole part or a fraction has no digit in front.
NoDigit-exponent :
    (e : Option (ℕ × Bytes)) (rest : Bytes) → Delimited rest → NoDigit (exponent_text e ++ rest)
NoDigit-exponent none [] n = tt
NoDigit-exponent none (c ∷ rest) n = n.0
NoDigit-exponent (some _) rest n = refl

fraction_part-text :
    (f : Bytes) (e : Option (ℕ × Bytes)) (rest : Bytes)
    → only_digits f ≡ true
    → Delimited rest
    → fraction_part (fraction_text f ++ (exponent_text e ++ rest))
      ≡ ok (fraction_text f, exponent_text e ++ rest)
unfolding fraction_part
fraction_part-text [] none [] h n = refl
fraction_part-text [] none (c ∷ rest) h n = rw n.1 refl
fraction_part-text [] (some _) rest h n = refl
fraction_part-text (c ∷ cs) e rest h n =
    rw (digit_span-digits (c ∷ cs) (exponent_text e ++ rest) h (NoDigit-exponent e rest n)) refl

NoDigit-fraction :
    (f : Bytes) (e : Option (ℕ × Bytes)) (rest : Bytes)
    → Delimited rest
    → NoDigit (fraction_text f ++ (exponent_text e ++ rest))
NoDigit-fraction [] e rest n = NoDigit-exponent e rest n
NoDigit-fraction (c ∷ cs) e rest n = refl

whole_part-text :
    (ws rest : Bytes) → IsWhole ws → NoDigit rest → whole_part (ws ++ rest) ≡ ok (ws, rest)
unfolding whole_part
whole_part-text [] rest h n = absurd h
whole_part-text (c ∷ cs) rest (inl (e, none_left)) n = rw (e, none_left) refl
whole_part-text (c ∷ cs) rest (inr (first, more)) n =
    let not_zero : (c == b'0') ≡ false = ground arith in
    let digits : only_digits (c ∷ cs) ≡ true = unfold only_digits in ground arith in
    rw (not_zero, first, digit_span-digits (c ∷ cs) rest digits n) refl

minus_part-text :
    (s : Bool) (ws rest : Bytes)
    → IsWhole ws
    → minus_part (sign_text s ++ (ws ++ rest)) ≡ (sign_text s, ws ++ rest)
unfolding minus_part
minus_part-text true ws rest h = refl
minus_part-text false [] rest h = absurd h
minus_part-text false (c ∷ cs) rest (inl (e, _)) = rw e refl
minus_part-text false (c ∷ cs) rest (inr (first, _)) =
    let not_minus : (c == b'-') ≡ false = ground arith in rw not_minus refl

literal_text-append :
    (l : Literal) (rest : Bytes)
    → literal_text l ++ rest
      ≡ sign_text l.negative
        ++ (l.whole ++ (fraction_text l.fraction ++ (exponent_text l.exponent ++ rest)))
literal_text-append l rest = simp (append_assoc)

-- The parser takes a literal off the front of a text.
pub number_literal-text :
    (l : Literal) (rest : Bytes)
    → IsLiteral l
    → Delimited rest
    → number_literal (literal_text l ++ rest) ≡ ok (literal_text l, rest)
unfolding number_literal
number_literal-text l rest good n =
    rw
      (
        literal_text-append l rest,
        minus_part-text l.negative l.whole _ good.whole_ok,
        whole_part-text l.whole _ good.whole_ok (NoDigit-fraction l.fraction l.exponent rest n),
        fraction_part-text l.fraction l.exponent rest good.fraction_ok n,
        exponent_part-text l.exponent rest good.exponent_ok n,
      )
      refl
