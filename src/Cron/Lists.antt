-- ===== src/Cron/Lists.antt =====
-- internal/cron/cron.go: a field that lists numbers, written in decimal, is read back.
use pages.Common.{
  Bool-cases, List, Text, [], ap, arith, false, if◌then◌else◌, inl, inr, leb, leb→le, le→leb, ltb,
  ltb→lt, lt→ltb, none, refl, some, suc, true, zero, ℕ, ◌%◌, ◌&&◌, ◌*◌, ◌++◌, ◌+◌, ◌-◌, ◌/◌, ◌<◌,
  ◌==◌, ◌||◌, ◌∙◌, ◌∷◌, ◌≡◌, ◌≤◌,
}
use pages.Common.Strings.{only_digits, byte_len, cut_at, decimal_value, split_at}
use pages.Cron.Parse.{
  Field, check_range, is_star, number, parse_field, parse_item, parse_items, parsed, range_of,
  step_of, stepped, ◌>>=◌,
}
use pages.Cron.Values.{InField}

-- The code of a decimal digit.
abbrev digit : ℕ → ℕ
digit d = 48 + d

-- A number of one or two digits, in decimal.
abbrev pub print_number : ℕ → Text
print_number v = if ltb v 10 then digit v ∷ [] else (digit (v / 10) ∷ digit (v % 10) ∷ [])

-- A list of numbers, separated by commas.
abbrev pub print_list : ℕ → List ℕ → Text
print_list v [] = print_number v
print_list v (w ∷ ws) = print_number v ++ 44 ∷ print_list w ws

-- `print_number`'s text has only digits.
digit-ok : (d : ℕ) → d < 10 → (leb 48 (digit d) && leb (digit d) 57) ≡ true
digit-ok d h = ground arith

one_digit-number : (d : ℕ) → d < 10 → number (digit d ∷ []) ≡ some d
unfolding number byte_len only_digits decimal_value
one_digit-number d h =
    let low = lt→ltb (digit d) 128 (omega arith) in
    let value : 0 * 10 + (digit d - 48) ≡ d = omega arith in
    rw (low, le→leb 48 (digit d) (omega arith), le→leb (digit d) 57 (omega arith), value) refl

two_digit-number : (a b : ℕ) → a < 10 → b < 10 → number (digit a ∷ digit b ∷ []) ≡ some (a * 10 + b)
unfolding number byte_len only_digits decimal_value
two_digit-number a b h k =
    let value : (0 * 10 + (digit a - 48)) * 10 + (digit b - 48) ≡ a * 10 + b = omega arith in
    rw
      (
        lt→ltb (digit a) 128 (omega arith),
        lt→ltb (digit b) 128 (omega arith),
        le→leb 48 (digit a) (omega arith),
        le→leb (digit a) 57 (omega arith),
        le→leb 48 (digit b) (omega arith),
        le→leb (digit b) 57 (omega arith),
        value,
      )
      refl

number-print : (v : ℕ) → v < 100 → number (print_number v) ≡ some v
number-print v h = elim (Bool-cases (ltb v 10)) [
  | inl e ↦ rw e (one_digit-number v (ltb→lt v 10 e))
  | inr e ↦
      let value : v / 10 * 10 + v % 10 ≡ v = omega arith in
      rw e (two_digit-number (v / 10) (v % 10) (omega arith) (omega arith) ∙ ap some value)
]

print-only_digits : (v : ℕ) → v < 100 → only_digits (print_number v) ≡ true
unfolding only_digits
print-only_digits v h = elim (Bool-cases (ltb v 10)) [
  | inl e ↦ let l = ltb→lt v 10 e in rw (e, digit-ok v l) refl
  | inr e ↦
      rw
        (
          e,
          le→leb 48 (digit (v / 10)) (omega arith),
          le→leb (digit (v / 10)) 57 (omega arith),
          le→leb 48 (digit (v % 10)) (omega arith),
          le→leb (digit (v % 10)) 57 (omega arith),
        )
        refl
]

-- Digits hold none of the separators.
digit-not_sep :
    (sep c : ℕ) (cs : Text)
    → sep < 48
    → only_digits (c ∷ cs) ≡ true
    → ((c == sep) ≡ false) × (only_digits cs ≡ true)
unfolding only_digits
digit-not_sep sep c cs h e = elim (Bool-cases (leb 48 c)) [
  | inl a ↦ let l = leb→le 48 c a in (ground arith, ground arith)
  | inr a ↦ let no : false ≡ true = rw a at e in cc
]

cut_at-digits : (sep : ℕ) (t : Text) → sep < 48 → only_digits t ≡ true → cut_at sep t ≡ (t, none)
unfolding cut_at
cut_at-digits sep [] h e = refl
cut_at-digits sep (c ∷ cs) h e =
    let (off, rest) = digit-not_sep sep c cs h e in rw (cut_at-digits sep cs h rest, off) refl

is_star-digits : (t : Text) → only_digits t ≡ true → is_star t ≡ false
is_star-digits [] e = refl
is_star-digits (c ∷ []) e = (digit-not_sep 42 c [] (omega arith) e).0
is_star-digits (c ∷ d ∷ ds) e = refl

split_at-digits : (t : Text) → only_digits t ≡ true → split_at 44 t ≡ (t, [])
unfolding split_at
split_at-digits [] e = refl
split_at-digits (c ∷ cs) e =
    let (off, rest) = digit-not_sep 44 c cs (omega arith) e in
    rw (split_at-digits cs rest, off) refl

split_at-append :
    (t more : Text)
    → only_digits t ≡ true
    → split_at 44 (t ++ 44 ∷ more) ≡ (t, (split_at 44 more).0 ∷ (split_at 44 more).1)
unfolding split_at
split_at-append [] more e = refl
split_at-append (c ∷ cs) more e =
    let (off, rest) = digit-not_sep 44 c cs (omega arith) e in
    rw (split_at-append cs more rest, off) refl

stepped-over : (n v hi step : ℕ) → hi < v → stepped n v hi step ≡ []
unfolding stepped
stepped-over zero v hi step h = refl
stepped-over (suc n) v hi step h = let e : leb v hi ≡ false = ground arith in rw e refl

stepped-one : (v : ℕ) → stepped (suc v) v v 1 ≡ v ∷ []
unfolding stepped
stepped-one v = rw (le→leb v v (omega arith), stepped-over v (v + 1) v 1 (omega arith)) refl

step_of-digits : (f : Field) (t : Text) → only_digits t ≡ true → step_of f t ≡ parsed (t, 1)
unfolding step_of
step_of-digits f t e = rw (cut_at-digits 47 t (omega arith) e, step_of) refl

range_of-digits :
    (f : Field) (v : ℕ) (t : Text)
    → f.low ≤ v
    → v ≤ f.high
    → only_digits t ≡ true
    → number t ≡ some v
    → range_of f t ≡ parsed (v, v)
unfolding range_of check_range
range_of-digits f v t a b e n =
    let test : (ltb v f.low || ltb f.high v || ltb v v) ≡ false = ground arith in
    let cut = cut_at-digits 45 t (omega arith) e in
    let after = ap (λ c. c.1) cut in
    let value : number (cut_at 45 t).0 ≡ some v = ap (λ c. number c.0) cut ∙ n in
    rw (is_star-digits t e, after, value, test, range_of) refl

-- One number in bounds.
parse_item-number :
    (f : Field) (v : ℕ) (t : Text)
    → f.low ≤ v
    → v ≤ f.high
    → only_digits t ≡ true
    → number t ≡ some v
    → parse_item f t ≡ parsed (v ∷ [])
unfolding parse_item number byte_len
parse_item-number f v [] a b e n = cc
parse_item-number f v (c ∷ cs) a b e n =
    rw
      (step_of-digits f (c ∷ cs) e, range_of-digits f v (c ∷ cs) a b e n, stepped-one v, parse_item)
      refl

parse_item-print :
    (f : Field) (v : ℕ)
    → f.low ≤ v
    → v ≤ f.high
    → f.high < 100
    → parse_item f (print_number v) ≡ parsed (v ∷ [])
parse_item-print f v a b h =
    parse_item-number f v (print_number v) a b (print-only_digits v (omega arith))
      (number-print v (omega arith))

-- A field that lists numbers in its bounds, in decimal and separated by commas, parses to exactly
-- these numbers, in order.
pub parse_field-print_list :
    (f : Field) (v : ℕ) (vs : List ℕ)
    → f.high < 100
    → InField f (v ∷ vs)
    → parse_field f (print_list v vs) ≡ parsed (v ∷ vs)
unfolding parse_field parse_items
parse_field-print_list f v [] h bounds =
    let low = bounds.0.0 in
    let high = bounds.0.1 in
    rw
      (
        split_at-digits (print_number v) (print-only_digits v (omega arith)),
        parse_item-print f v low high h,
      )
      refl
parse_field-print_list f v (w ∷ ws) h bounds =
    let low = bounds.0.0 in
    let high = bounds.0.1 in
    let more = parse_field-print_list f w ws h bounds.1 in
    rw
      (
        split_at-append (print_number v) (print_list w ws) (print-only_digits v (omega arith)),
        parse_item-print f v low high h,
      )
      (ap (λ m. m >>= λ rest. parsed (v ∷ rest)) more)
