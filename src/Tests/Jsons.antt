-- ===== src/Tests/Jsons.antt =====
-- internal/jsonv/jsonv.go on concrete inputs. The doubles here are 0 and 5: any other number is read
-- as 5.
use pages.Common.{
  Bool, List, Option, [], ap, arith, codes, false, if◌then◌else◌, inl, inr, length, none, not, refl,
  some, sym, text_eq, true, ℕ, ◌*◌, ◌++◌, ◌+◌, ◌-◌, ◌==◌, ◌∷◌, ◌≡◌, ◌≢◌,
}
use pages.Common.Strings.{decimal_value, only_digits}
use pages.Jsonv.Canon.{IsPrintable, canon}
use pages.Jsonv.Changes.{Change, changed_by, changed_by-entries, deleting, entries_changed, setting}
use pages.Jsonv.Decoding.{decode_utf8-valid}
use pages.Jsonv.Entries.{enumerate, is_array_index, value_at}
use pages.Jsonv.Model.{parse-IsPrintable, parse-normal}
use pages.Jsonv.Numbers.{Doubles, regular, signed_value, up_one, write_number, zero_number, ℤ}
use pages.Jsonv.Numerals.{
  IsLiteral, IsWhole, Literal, exponent_text, fraction_text, literal_text, sign_text,
}
use pages.Jsonv.Object.{delete, get, names_of, new_object, ordered_keys, range, set}
use pages.Jsonv.Output.{stringify-valid}
use pages.Jsonv.Parse.{is_digit_byte, parse, parse_as}
use pages.Jsonv.Print.{stringify}
use pages.Jsonv.Reading.{Form, Rounds, coefficient, decimal_value-append, minus_ℕ}
use pages.Jsonv.RoundTrip.{parse_as-stringify}
use pages.Jsonv.Termination.{parse_as-ends}
use pages.Jsonv.Texts.{escape_all, escape_slow, escapes, lone_surrogate, quote, string_literal}
use pages.Jsonv.Utf8.{Bytes, decode_from, decode_utf8, lead, next_char, replacement, tail, valid}
use pages.Jsonv.Values.{
  Value, arr, boolean, cons, end, err, field, nil, null, num, obj, ok, out_of_fuel, str,
}

-- The digits of a literal up to its exponent, as a number after `v`.
mantissa_value : ℕ → Bytes → ℕ
mantissa_value v [] = v
mantissa_value v (c ∷ cs) =
    let more = mantissa_value (v * 10 + (c - 48)) cs in
    let skip = mantissa_value v cs in
    if c == b'e' then v else if is_digit_byte c then more else skip

abbrev two_doubles : Doubles
two_doubles = record {
  Double = Bool;
  parse_float = λ t. some (not (mantissa_value 0 t == 0));
  kind_of = λ d. elim d [ true ↦ regular false | false ↦ zero_number ];
  format_float = λ d. codes "5e+00";
}

abbrev nearest_of : Bool → ℕ → ℤ → Bool
nearest_of s m e = not (m == 0)

mantissa_value-digits :
    (v : ℕ) (t more : Bytes)
    → only_digits t ≡ true
    → mantissa_value v (t ++ more) ≡ mantissa_value (decimal_value v t) more
unfolding mantissa_value only_digits decimal_value
mantissa_value-digits v [] more h = refl
mantissa_value-digits v (c ∷ cs) more h =
    let other : (c == b'e') ≡ false = ground arith in
    let digit : is_digit_byte c ≡ true = ground arith in
    let rest : only_digits cs ≡ true = ground arith in
    rw (other, digit) (mantissa_value-digits (v * 10 + (c - 48)) cs more rest)

only_digits-whole : (w : Bytes) → IsWhole w → only_digits w ≡ true
unfolding only_digits
only_digits-whole [] h = absurd h
only_digits-whole (c ∷ cs) (inl (e, z)) = rw (e, z) refl
only_digits-whole (c ∷ cs) (inr (e, z)) = ground arith

mantissa_value-exponent : (v : ℕ) (e : Option (ℕ × Bytes)) → mantissa_value v (exponent_text e) ≡ v
unfolding mantissa_value
mantissa_value-exponent v none = refl
mantissa_value-exponent v (some _) = refl

mantissa_value-fraction :
    (v : ℕ) (f more : Bytes)
    → mantissa_value v (fraction_text f ++ more) ≡ mantissa_value v (f ++ more)
unfolding mantissa_value
mantissa_value-fraction v [] more = refl
mantissa_value-fraction v (c ∷ cs) more = refl

mantissa_value-sign :
    (s : Bool) (more : Bytes) → mantissa_value 0 (sign_text s ++ more) ≡ mantissa_value 0 more
unfolding mantissa_value
mantissa_value-sign true more = refl
mantissa_value-sign false more = refl

nearest_of_scale : (s : Bool) (m : ℕ) (e : ℤ) → nearest_of s (m * 10) e ≡ nearest_of s m (up_one e)
nearest_of_scale s m e = ground arith

mantissa_value-literal :
    (l : Literal) → IsLiteral l → mantissa_value 0 (literal_text l) ≡ coefficient l
mantissa_value-literal l good =
    rw
      (
        mantissa_value-sign l.negative _,
        mantissa_value-digits 0 l.whole _ (only_digits-whole l.whole good.whole_ok),
        mantissa_value-fraction _ l.fraction _,
        mantissa_value-digits _ l.fraction _ good.fraction_ok,
        mantissa_value-exponent _ l.exponent,
      )
      (sym (decimal_value-append 0 l.whole l.fraction))

form_of : (d s : Bool) → two_doubles.kind_of d ≡ regular s → Form (two_doubles.format_float d)
form_of true s k = record {
  leading = b'5';
  more = [];
  shown = codes "+00";
  leading_ok = refl;
  more_ok = unfold only_digits in refl;
  bounded = unfold signed_value in (omega arith, omega arith);
  text_ok = refl;
}
form_of false s k = cc

form_exact_of :
    (d s : Bool) (k : two_doubles.kind_of d ≡ regular s)
    → let f = form_of d s k in
      nearest_of s
        (decimal_value 0 (f.leading ∷ f.more))
        (minus_ℕ (signed_value f.shown) (length f.more))
      ≡ d
unfolding form_of decimal_value
form_exact_of true s k = refl
form_exact_of false s k = cc

rounds : Rounds two_doubles
rounds = record {
  nearest = nearest_of;
  nearest_scale = nearest_of_scale;
  parse_literal = λ l good. ap (λ n. some (not (n == 0))) (mantissa_value-literal l good);
  nearest_zero = refl;
  form = form_of;
  form_exact = form_exact_of;
}

-- {"b": [null, true, 5], "7": "a\n"}
abbrev sample : Value Bool
sample = obj (
    field (codes "b") (arr (cons null (cons (boolean true) (cons (num true) nil))))
      (field (codes "7") (str (b'a' ∷ 10 ∷ [])) end))

-- The same as JSON keeps it: the array index comes first.
abbrev kept_sample : Value Bool
kept_sample = obj (
    field (codes "7") (str (b'a' ∷ 10 ∷ []))
      (field (codes "b") (arr (cons null (cons (boolean true) (cons (num true) nil)))) end))

sample_text : Bytes
sample_text = codes "{\"7\":\"a\\n\",\"b\":[null,true,5]}"

sample-stringify : stringify two_doubles sample ≡ sample_text
unfolding stringify sample_text enumerate is_array_index escape_all lead write_number text_eq
sample-stringify = refl

sample-IsPrintable : IsPrintable 0 sample
unfolding IsPrintable valid lead
sample-IsPrintable = (omega arith, (((λ e. cc), tt), (tt, tt)), ground arith)

spaced_text : Bytes
spaced_text = codes " { \"b\" : [ null , true , 5.0 ] , \"7\" : \"x\" , \"7\" : \"a\\u000a\" } "

spaced-parse : parse two_doubles spaced_text ≡ ok sample
unfolding parse spaced_text escapes mantissa_value string_literal text_eq
spaced-parse = refl

parse_as-stringify_example :
    parse_as two_doubles false (stringify two_doubles sample) ≡ ok (canon rounds sample)
parse_as-stringify_example = parse_as-stringify rounds false sample sample-IsPrintable

parse-normal_example :
    (u : Value Bool) × (parse two_doubles (stringify two_doubles sample) ≡ ok u)
    × (stringify two_doubles u ≡ stringify two_doubles sample)
parse-normal_example = parse-normal rounds spaced_text spaced-parse

parse-IsPrintable_example : IsPrintable 0 sample
parse-IsPrintable_example = parse-IsPrintable two_doubles spaced_text spaced-parse

parse_as-ends_example : parse_as two_doubles false (codes "[[{\"a\":") ≢ err out_of_fuel []
parse_as-ends_example = parse_as-ends two_doubles false (codes "[[{\"a\":") []

abbrev changes : List (Change ℕ)
changes =
    setting (codes "b") 1
    ∷ setting (codes "7") 2
    ∷ setting (codes "2") 3
    ∷ deleting (codes "b")
    ∷ setting (codes "7") 4
    ∷ []

changes-range : range (changed_by new_object changes) ≡ (codes "2", 3) ∷ (codes "7", 4) ∷ []
unfolding range changed_by new_object set delete get enumerate ordered_keys text_eq
changes-range = refl

changed_by-entries_example :
    (get (changed_by new_object changes) (codes "7")
      ≡ value_at (codes "7") (entries_changed [] changes))
    × (range (changed_by new_object changes) ≡ enumerate (entries_changed [] changes))
    × (ordered_keys (changed_by new_object changes)
        ≡ names_of (enumerate (entries_changed [] changes)))
changed_by-entries_example = changed_by-entries changes (codes "7")

abbrev torn : Bytes
torn = 0xff ∷ b'a' ∷ 0xe2 ∷ 0x82 ∷ b'b' ∷ []

torn-decoded : decode_utf8 torn ≡ replacement ++ b'a' ∷ replacement ++ b'b' ∷ []
unfolding decode_utf8 next_char lead tail
torn-decoded = refl

decode_utf8-valid_example :
    (valid (decode_utf8 torn) ≡ true) × (decode_utf8 torn ≡ decode_from (length torn) torn)
decode_utf8-valid_example = decode_utf8-valid torn

-- A lone surrogate, and broken sequences as a key.
abbrev broken_value : Value Bool
broken_value =
    obj (field torn (arr (cons (str (0xed ∷ 0xa0 ∷ 0x80 ∷ [])) (cons (num true) nil))) end)

lone-quote : quote (0xed ∷ 0xa0 ∷ 0x80 ∷ []) ≡ codes "\"\\ud800\""
unfolding quote valid next_char lead tail escape_slow lone_surrogate
lone-quote = refl

stringify-valid_example : valid (stringify two_doubles broken_value) ≡ true
stringify-valid_example = stringify-valid rounds broken_value
