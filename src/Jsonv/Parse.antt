-- ===== src/Jsonv/Parse.antt =====
-- internal/jsonv/jsonv.go: the parser, on the bytes from its position on.
use pages.Common.{
  Bool, Option, [], codes, false, if◌then◌else◌, leb, length, ltb, none, some, suc, true, zero, ℕ,
  ◌&&◌, ◌*◌, ◌++◌, ◌==◌, ◌||◌, ◌∷◌,
}
use pages.Jsonv.Entries.{put}
use pages.Jsonv.Numbers.{Doubles}
use pages.Jsonv.Texts.{string_literal}
use pages.Jsonv.Utf8.{Bytes, decode_utf8, valid}
use pages.Jsonv.Values.{
  Fields, Items, Message, Result, Value, append_item, arr, bad_number, boolean, end, entries_of,
  err, expected_colon, expected_comma_or_brace, expected_comma_or_bracket, expected_name, fields_of,
  missing_exponent, nil, no_number, null, num, obj, ok, out_of_fuel, str, too_deep, trailing_text,
  unexpected_end, unexpected_token, unterminated_fraction, ◌>>=◌,
}

-- `ws`
unfoldable pub skip_space : Bytes → Bytes
skip_space [] = []
skip_space (c ∷ cs) =
    if c == b' ' || c == b'\t' || c == b'\n' || c == b'\r' then skip_space cs else c ∷ cs

abbrev pub is_digit_byte : ℕ → Bool
is_digit_byte c = leb b'0' c && leb c b'9'

-- The digits at the front, and what follows.
unfoldable pub digit_span : Bytes → Bytes × Bytes
digit_span [] = ([], [])
digit_span (c ∷ cs) =
    let (more, rest) = digit_span cs in if is_digit_byte c then (c ∷ more, rest) else ([], c ∷ cs)

-- The parts of a number literal, each with what it read.
unfoldable pub whole_part : Bytes → Result (Bytes × Bytes)
unfolding digit_span
whole_part [] = err no_number []
whole_part (c ∷ cs) =
    if c == b'0'
    then ok (c ∷ [], cs)
    else if leb b'1' c && leb c b'9'
    then ok (digit_span (c ∷ cs))
    else err no_number (c ∷ cs)

-- Digits after `read`, at least one.
abbrev pub some_digits : Message → Bytes → Bytes × Bytes → Result (Bytes × Bytes)
some_digits m read ([], rest) = err m rest
some_digits m read (c ∷ cs, rest) = ok (read ++ c ∷ cs, rest)

unfoldable pub fraction_part : Bytes → Result (Bytes × Bytes)
unfolding digit_span
fraction_part [] = ok ([], [])
fraction_part (c ∷ cs) =
    if c == b'.'
    then some_digits unterminated_fraction (c ∷ []) (digit_span cs)
    else ok ([], c ∷ cs)

unfoldable pub exponent_digits : ℕ → Bytes → Result (Bytes × Bytes)
unfolding digit_span
exponent_digits e [] = err missing_exponent []
exponent_digits e (c ∷ cs) =
    if c == b'+' || c == b'-'
    then some_digits missing_exponent (e ∷ c ∷ []) (digit_span cs)
    else some_digits missing_exponent (e ∷ []) (digit_span (c ∷ cs))

unfoldable pub exponent_part : Bytes → Result (Bytes × Bytes)
unfolding exponent_digits
exponent_part [] = ok ([], [])
exponent_part (c ∷ cs) = if c == b'e' || c == b'E' then exponent_digits c cs else ok ([], c ∷ cs)

unfoldable pub minus_part : Bytes → Bytes × Bytes
minus_part [] = ([], [])
minus_part (c ∷ cs) = if c == b'-' then (c ∷ [], cs) else ([], c ∷ cs)

-- The literal that `number` reads, before ParseFloat.
unfoldable pub number_literal : Bytes → Result (Bytes × Bytes)
unfolding minus_part whole_part fraction_part exponent_part
number_literal bs =
    let (sign, r) = minus_part bs in
    whole_part r >>= λ (whole, r'). fraction_part r' >>= λ (fraction, r'').
    exponent_part r'' >>= λ (exponent, rest). ok (sign ++ (whole ++ (fraction ++ exponent)), rest)

-- `bytes.HasPrefix`: what follows the word.
unfoldable pub after_word : Bytes → Bytes → Option Bytes
after_word [] bs = some bs
after_word (w ∷ ws) [] = none
after_word (w ∷ ws) (c ∷ cs) = if w == c then after_word ws cs else none

unfoldable pub literal {ℓ} : {A : Type ℓ} → Bytes → A → Bytes → Result (A × Bytes)
unfolding after_word
literal word v bs = elim (after_word word bs) [
  | none ↦ err unexpected_token bs
  | some rest ↦ ok (v, rest)
]

abbrev pub max_depth : ℕ
max_depth = 10000

-- After the bracket that opens an object or an array: it closes at once, or its loop runs.
unfoldable pub closed_or {ℓ} :
    {A : Type ℓ} → ℕ → A → (Bytes → Result (A × Bytes)) → Bytes → Result (A × Bytes)
unfolding skip_space
closed_or close empty loop bs = elim (skip_space bs) [
  | [] ↦ loop []
  | c ∷ cs ↦ if c == close then ok (empty, cs) else loop (c ∷ cs)
]

-- The name of a member and its colon.
unfoldable pub member_name : Bool → Bytes → Result (Bytes × Bytes)
unfolding skip_space
member_name wtf8 bs = elim bs [
  | [] ↦ err expected_name []
  | c ∷ cs ↦
      if c == b'"'
      then (string_literal wtf8 cs >>= λ (k, rest). elim (skip_space rest) [
        | [] ↦ err expected_colon []
        | d ∷ ds ↦ if d == b':' then ok (k, ds) else err expected_colon (d ∷ ds)
      ])
      else err expected_name (c ∷ cs)
]

-- After an element or a member: the loop goes on after a comma and ends at the closing bracket.
unfoldable pub next_or_close {ℓ} :
    {A : Type ℓ} → Message → ℕ → A → (Bytes → Result (A × Bytes)) → Bytes → Result (A × Bytes)
unfolding skip_space
next_or_close m close done loop bs = elim (skip_space bs) [
  | [] ↦ err unexpected_end []
  | c ∷ cs ↦ if c == b',' then loop cs else if c == close then ok (done, cs) else err m (c ∷ cs)
]

module _ (F : Doubles) where
  open F use {Double, parse_float}

  -- `number`
  unfoldable pub number_value : Bytes → Result (Value Double × Bytes)
  unfolding number_literal
  number_value bs = number_literal bs >>= λ (text, rest). elim (parse_float text) [
    | none ↦ err bad_number rest
    | some d ↦ ok (num d, rest)
  ]

  -- The values that hold no others, by their first byte.
  unfoldable pub scalar : Bool → ℕ → Bytes → Result (Value Double × Bytes)
  unfolding number_value literal
  scalar wtf8 c cs =
      if c == b'"'
      then (string_literal wtf8 cs >>= λ (s, rest). ok (str s, rest))
      else if c == b't'
      then literal (codes "true") (boolean true) (c ∷ cs)
      else if c == b'f'
      then literal (codes "false") (boolean false) (c ∷ cs)
      else if c == b'n'
      then literal (codes "null") null (c ∷ cs)
      else if c == b'-' || is_digit_byte c
      then number_value (c ∷ cs)
      else err unexpected_token (c ∷ cs)

  -- `value`, and the loops of `object` and `array`.
  unfoldable mutual
    unfolding closed_or member_name next_or_close scalar put append_item

    pub value : Bool → ℕ → ℕ → Bytes → Result (Value Double × Bytes)
    value wtf8 zero depth bs = err out_of_fuel bs
    value wtf8 (suc fuel) depth [] =
        if ltb max_depth depth then err too_deep [] else err unexpected_end []
    value wtf8 (suc fuel) depth (c ∷ cs) =
        let object = closed_or b'}' (obj end) (members wtf8 fuel depth end) cs in
        let array = closed_or b']' (arr nil) (elements wtf8 fuel depth nil) cs in
        if ltb max_depth depth
        then err too_deep (c ∷ cs)
        else if c == b'{'
        then object
        else if c == b'['
        then array
        else scalar wtf8 c cs

    pub members : Bool → ℕ → ℕ → Fields Double → Bytes → Result (Value Double × Bytes)
    members wtf8 zero depth o bs = err out_of_fuel bs
    members wtf8 (suc fuel) depth o bs = member_name wtf8 (skip_space bs) >>= λ (k, r).
        value wtf8 fuel (suc depth) (skip_space r) >>= λ (v, rest).
        let o' = fields_of (put k v (entries_of o)) in
        next_or_close expected_comma_or_brace b'}' (obj o') (members wtf8 fuel depth o') rest

    pub elements : Bool → ℕ → ℕ → Items Double → Bytes → Result (Value Double × Bytes)
    elements wtf8 zero depth xs bs = err out_of_fuel bs
    elements wtf8 (suc fuel) depth xs bs =
        value wtf8 fuel (suc depth) (skip_space bs) >>= λ (v, rest).
        let xs' = append_item v xs in
        next_or_close expected_comma_or_bracket b']' (arr xs') (elements wtf8 fuel depth xs') rest

  -- The rounds that the parser is given: two for each byte, and one.
  abbrev pub fuel_of : Bytes → ℕ
  fuel_of bs = suc (2 * length bs)

  -- `parse` after the value: nothing else may follow.
  abbrev pub at_end : Value Double → Bytes → Result (Value Double)
  at_end v [] = ok v
  at_end v (c ∷ cs) = err trailing_text (c ∷ cs)

  -- `parse`
  unfoldable pub parse_as : Bool → Bytes → Result (Value Double)
  unfolding value skip_space
  parse_as wtf8 bs =
      let start = skip_space bs in
      value wtf8 (fuel_of start) 0 start >>= λ (v, rest). at_end v (skip_space rest)

  -- `Parse`
  unfoldable pub parse : Bytes → Result (Value Double)
  unfolding parse_as
  parse bs = parse_as false bs

  -- `ParseLossless`
  unfoldable pub parse_lossless : Bytes → Result (Value Double)
  unfolding parse_as
  parse_lossless bs = parse_as true (if valid bs then bs else decode_utf8 bs)
