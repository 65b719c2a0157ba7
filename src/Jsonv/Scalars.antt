-- ===== src/Jsonv/Scalars.antt =====
-- internal/jsonv/jsonv.go: the written values that hold no others are read back.
use pages.Common.{
  Bool, [], ap, arith, codes, false, inl, inr, length, ltb, none, refl, suc, true, zero, ℕ, ◌*◌,
  ◌++◌, ◌<◌, ◌==◌, ◌||◌, ◌∙◌, ◌∷◌, ◌≡◌, ◌≤◌,
}
use pages.Common.Strings.{decimal_value, only_digits}
use pages.Jsonv.Literals.{number_value-literal, regular_literal}
use pages.Jsonv.Numbers.{
  Doubles, Kind, format_number, infinite, not_a_number, pos, regular, write_number, zero_number,
}
use pages.Jsonv.Numerals.{
  Delimited, IsLiteral, IsWhole, Literal, exponent_text, fraction_text, literal_text, sign_text,
}
use pages.Jsonv.Parse.{
  after_word, is_digit_byte, literal, max_depth, number_value, scalar, skip_space, value,
}
use pages.Jsonv.Print.{stringify}
use pages.Jsonv.Quoting.{quote-valid, string_literal-quote}
use pages.Jsonv.Reading.{Rounds, coefficient, scale}
use pages.Jsonv.Texts.{escape_all, quote, string_literal}
use pages.Jsonv.Utf8.{Bytes, valid}
use pages.Jsonv.Values.{Value, boolean, null, num, ok, str}

abbrev pub is_space_byte : ℕ → Bool
is_space_byte c = c == b' ' || c == b'\t' || c == b'\n' || c == b'\r'

-- A text that starts with a byte that is neither space nor a closing bracket.
abbrev pub Opens : Bytes → Type 0
Opens [] = ⊥
Opens (c ∷ _) = (is_space_byte c ≡ false) × ((c == b']') ≡ false)

pub skip_space-Opens : (t rest : Bytes) → Opens t → skip_space (t ++ rest) ≡ t ++ rest
unfolding skip_space
skip_space-Opens [] rest h = absurd h
skip_space-Opens (c ∷ cs) rest h = rw h.0 refl

-- The first byte of a number.
abbrev IsNumberByte : ℕ → Type 0
IsNumberByte c = (c == b'-' || is_digit_byte c) ≡ true

abbrev StartsNumber : Bytes → Type 0
StartsNumber [] = ⊥
StartsNumber (c ∷ _) = IsNumberByte c

literal_text-StartsNumber : (l : Literal) → IsLiteral l → StartsNumber (literal_text l)
literal_text-StartsNumber l good = start l.negative l.whole good.whole_ok
  where
    start :
        (s : Bool) (w : Bytes)
        → IsWhole w
        → StartsNumber
            (sign_text s ++ (w ++ (fraction_text l.fraction ++ exponent_text l.exponent)))
    start true w h = refl
    start false [] h = absurd h
    start false (c ∷ cs) (inl (e, _)) = rw e refl
    start false (c ∷ cs) (inr (e, _)) = ground arith

Opens-number : (t : Bytes) → StartsNumber t → Opens t
Opens-number [] h = absurd h
Opens-number (c ∷ cs) h = (ground arith, ground arith)

module _ {F : Doubles} (R : Rounds F) where
  open F use {Double}

  -- What JSON keeps of a number: not the sign of zero, and nothing of an infinity or a NaN.
  unfoldable pub canon_number : Double → Value Double
  canon_number d = elim (F.kind_of d) [
    | not_a_number ↦ null
    | infinite _ ↦ null
    | zero_number ↦ num (R.nearest false 0 (pos 0))
    | regular _ ↦ num d
  ]

  abbrev zero_literal : Literal
  zero_literal = record { negative = false; whole = b'0' ∷ []; fraction = []; exponent = none }

  zero_literal-IsLiteral : IsLiteral zero_literal
  zero_literal-IsLiteral = record {
    whole_ok = inl (refl, refl);
    fraction_ok = unfold only_digits in refl;
    exponent_ok = tt;
  }

  value-number :
      (w : Bool) (f depth : ℕ) (t rest : Bytes) (v : Value Double)
      → depth ≤ max_depth
      → StartsNumber t
      → number_value F (t ++ rest) ≡ ok (v, rest)
      → value F w (suc f) depth (t ++ rest) ≡ ok (v, rest)
  unfolding value scalar
  value-number w f depth [] rest v b h e = absurd h
  value-number w f depth (c ∷ cs) rest v b h e =
      let shallow : ltb max_depth depth ≡ false = ground arith in
      let brace : (c == b'{') ≡ false = ground arith in
      let bracket : (c == b'[') ≡ false = ground arith in
      let quoted : (c == b'"') ≡ false = ground arith in
      let not_t : (c == b't') ≡ false = ground arith in
      let not_f : (c == b'f') ≡ false = ground arith in
      let not_n : (c == b'n') ≡ false = ground arith in
      rw (shallow, brace, bracket, quoted, not_t, not_f, not_n, h) e

  -- A word is read where it stands.
  value-word :
      (w : Bool) (f depth : ℕ) (rest : Bytes)
      → depth ≤ max_depth
      → (value F w (suc f) depth (codes "null" ++ rest) ≡ ok (null, rest))
        × (value F w (suc f) depth (codes "true" ++ rest) ≡ ok (boolean true, rest))
        × (value F w (suc f) depth (codes "false" ++ rest) ≡ ok (boolean false, rest))
  unfolding value scalar literal after_word
  value-word w f depth rest b =
      let shallow : ltb max_depth depth ≡ false = ground arith in
      (rw shallow refl, rw shallow refl, rw shallow refl)

  value-literal :
      (w : Bool) (f depth : ℕ) (cs rest s : Bytes)
      → depth ≤ max_depth
      → string_literal w cs ≡ ok (s, rest)
      → value F w (suc f) depth (b'"' ∷ cs) ≡ ok (str s, rest)
  unfolding value scalar
  value-literal w f depth cs rest s b h =
      let shallow : ltb max_depth depth ≡ false = ground arith in rw (shallow, h) refl

  pub value-string :
      (w : Bool) (f depth : ℕ) (s rest : Bytes)
      → depth ≤ max_depth
      → valid s ≡ true
      → value F w (suc f) depth (quote s ++ rest) ≡ ok (str s, rest)
  value-string w f depth s rest b h = rw (quote-valid s rest h) (
      value-literal w f depth (escape_all s ++ b'"' ∷ rest) rest s b
        (string_literal-quote w s rest h))

  -- What is written of each kind of number, and what is kept of it.
  abbrev pub Written : Double → Bytes → Value Double → Type 0
  Written d t v = (write_number F d ≡ t) × (canon_number d ≡ v)

  pub nan-Written : (d : Double) → F.kind_of d ≡ not_a_number → Written d (codes "null") null
  unfolding write_number canon_number
  nan-Written d k = (rw (k, write_number) refl, rw (k, canon_number) refl)

  pub infinite-Written :
      (d : Double) (n : Bool) → F.kind_of d ≡ infinite n → Written d (codes "null") null
  unfolding write_number canon_number
  infinite-Written d n k = (rw (k, write_number) refl, rw (k, canon_number) refl)

  pub zero-Written :
      (d : Double)
      → F.kind_of d ≡ zero_number
      → Written d (codes "0") (num (R.nearest false 0 (pos 0)))
  unfolding write_number canon_number
  zero-Written d k = (rw (k, write_number, k, format_number) refl, rw (k, canon_number) refl)

  pub regular-Written :
      (d : Double) (s : Bool) → F.kind_of d ≡ regular s → Written d (format_number F d) (num d)
  unfolding write_number canon_number
  regular-Written d s k = (rw (k, write_number) refl, rw (k, canon_number) refl)

  -- A text from which a value is read at a depth, whatever follows it.
  abbrev pub Reads : Bool → ℕ → Bytes → Value Double → Type 0
  Reads w depth t v =
      Opens t
      × ((f : ℕ) (rest : Bytes)
          → 2 * length t < f
          → Delimited rest
          → value F w f depth (t ++ rest) ≡ ok (v, rest))

  pub Reads-at_once :
      (w : Bool) (depth : ℕ) (t : Bytes) (v : Value Double)
      → Opens t
      → ((f : ℕ) (rest : Bytes)
          → Delimited rest
          → value F w (suc f) depth (t ++ rest) ≡ ok (v, rest))
      → Reads w depth t v
  Reads-at_once w depth t v o h = (o, at)
    where
      at :
          (f : ℕ) (rest : Bytes)
          → 2 * length t < f
          → Delimited rest
          → value F w f depth (t ++ rest) ≡ ok (v, rest)
      at zero rest b n = absurd (omega arith)
      at (suc f) rest b n = h f rest n

  module _ (w : Bool) (depth : ℕ) (b : depth ≤ max_depth) where
    pub null-Reads : Reads w depth (codes "null") null
    null-Reads =
        Reads-at_once w depth (codes "null") null (refl, refl)
          (λ f rest _. (value-word w f depth rest b).0)

    pub boolean-Reads : (c : Bool) → Reads w depth (stringify F (boolean c)) (boolean c)
    unfolding stringify
    boolean-Reads true =
        Reads-at_once w depth (codes "true") (boolean true) (refl, refl)
          (λ f rest _. (value-word w f depth rest b).1)
    boolean-Reads false =
        Reads-at_once w depth (codes "false") (boolean false) (refl, refl)
          (λ f rest _. (value-word w f depth rest b).2)

    pub string-Reads : (s : Bytes) → valid s ≡ true → Reads w depth (quote s) (str s)
    string-Reads s h =
        Reads-at_once w depth (quote s) (str s) (unfold quote in (refl, refl))
          (λ f rest _. value-string w f depth s rest b h)

    literal-Reads :
        (l : Literal) (v : Value Double)
        → IsLiteral l
        → num (R.nearest l.negative (coefficient l) (scale l)) ≡ v
        → Reads w depth (literal_text l) v
    literal-Reads l v good e =
        let start = literal_text-StartsNumber l good in
        Reads-at_once w depth (literal_text l) v (Opens-number (literal_text l) start) (λ f rest n.
          value-number w f depth (literal_text l) rest v b start
            (number_value-literal R l rest good n ∙ ap (λ u. ok (u, rest)) e))

    pub number-Reads : (d : Double) → Reads w depth (write_number F d) (canon_number d)
    number-Reads d = kinds (F.kind_of d) refl
      where
        kinds : (k : Kind) → F.kind_of d ≡ k → Reads w depth (write_number F d) (canon_number d)
        kinds not_a_number k = let (t, v) = nan-Written d k in rw (t, v) null-Reads
        kinds (infinite n) k = let (t, v) = infinite-Written d n k in rw (t, v) null-Reads
        kinds zero_number k =
            let (t, v) = zero-Written d k in
            rw (t, v)
              (literal-Reads zero_literal (num (R.nearest false 0 (pos 0))) zero_literal-IsLiteral
                (unfold decimal_value in refl))
        kinds (regular s) k =
            let (t, v) = regular-Written d s k in
            let (l, text, good, same) = regular_literal R d s k in
            rw (t, v, text) (literal-Reads l (num d) good (ap num same))
