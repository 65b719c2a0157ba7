-- ===== src/Jsonv/Pieces.antt =====
-- internal/jsonv/jsonv.go: numbers, words, names and the loops consume what they read.
use pages.Common.{
  Bool, Bool-cases, Option, [], arith, false, if◌then◌else◌, inl, inr, leb, length, none, refl,
  some, suc, true, ℕ, ◌&&◌, ◌<◌, ◌==◌, ◌||◌, ◌∷◌, ◌≡◌, ◌≤◌,
}
use pages.Jsonv.Parse.{
  after_word, closed_or, digit_span, exponent_digits, exponent_part, fraction_part, is_digit_byte,
  literal, member_name, minus_part, next_or_close, number_literal, skip_space, some_digits,
  whole_part,
}
use pages.Jsonv.Progress.{
  Within, Within-bind, Within-if, Within-mono, is_fuel, leaves, length-skip_space, refuses,
  string_literal-Within,
}
use pages.Jsonv.Utf8.{Bytes}
use pages.Jsonv.Values.{
  Message, Result, err, expected_colon, missing_exponent, ok, unexpected_end, unexpected_token,
  unterminated_fraction,
}

-- Numbers.
length-digit_span : (bs : Bytes) → length ((digit_span bs).1) ≤ length bs
unfolding digit_span
length-digit_span [] = omega arith
length-digit_span (c ∷ cs) = let ih = length-digit_span cs in ground arith

whole_part-Within : (bs : Bytes) → Within (length bs) (whole_part bs)
unfolding whole_part
whole_part-Within [] = refuses refl
whole_part-Within (c ∷ cs) = elim (Bool-cases (leb b'1' c && leb c b'9')) [
  | inl digit ↦
      let more : is_digit_byte c ≡ true = ground arith in
      let span : (digit_span (c ∷ cs)).1 ≡ (digit_span cs).1 = unfold digit_span in rw more refl in
      Within-if (c == b'0') (leaves {rest = cs} (omega arith)) (
        Within-if (leb b'1' c && leb c b'9')
          (leaves {rest = (digit_span (c ∷ cs)).1} (rw span (omega (arith, length-digit_span cs))))
          (refuses {rest = c ∷ cs} refl))
  | inr other ↦ Within-if (c == b'0') (leaves {rest = cs} (omega arith)) (rw other (refuses refl))
]

some_digits-Within :
    (n : ℕ) (m : Message) (read : Bytes) (p : Bytes × Bytes)
    → is_fuel m ≡ false
    → length p.1 < n
    → Within n (some_digits m read p)
some_digits-Within n m read ([], rest) e h = refuses e
some_digits-Within n m read (c ∷ cs, rest) e h = leaves h

fraction_part-Within : (bs : Bytes) → Within (suc (length bs)) (fraction_part bs)
unfolding fraction_part
fraction_part-Within [] = leaves (omega arith)
fraction_part-Within (c ∷ cs) =
    Within-if (c == b'.')
      (some_digits-Within _ unterminated_fraction (c ∷ []) (digit_span cs) refl
        (omega (arith, length-digit_span cs)))
      (leaves {rest = c ∷ cs} (omega arith))

exponent_digits-Within : (e : ℕ) (bs : Bytes) → Within (suc (length bs)) (exponent_digits e bs)
unfolding exponent_digits
exponent_digits-Within e [] = refuses refl
exponent_digits-Within e (c ∷ cs) =
    Within-if (c == b'+' || c == b'-')
      (some_digits-Within _ missing_exponent (e ∷ c ∷ []) (digit_span cs) refl
        (omega (arith, length-digit_span cs)))
      (some_digits-Within _ missing_exponent (e ∷ []) (digit_span (c ∷ cs)) refl
        (omega (arith, length-digit_span (c ∷ cs))))

exponent_part-Within : (bs : Bytes) → Within (suc (length bs)) (exponent_part bs)
unfolding exponent_part
exponent_part-Within [] = leaves (omega arith)
exponent_part-Within (c ∷ cs) =
    Within-if (c == b'e' || c == b'E')
      (Within-mono (suc (length cs)) (suc (suc (length cs))) (exponent_digits-Within c cs)
        (omega arith))
      (leaves {rest = c ∷ cs} (omega arith))

length-minus_part : (bs : Bytes) → length ((minus_part bs).1) ≤ length bs
unfolding minus_part
length-minus_part [] = omega arith
length-minus_part (c ∷ cs) = ground arith

pub number_literal-Within : (bs : Bytes) → Within (length bs) (number_literal bs)
unfolding number_literal
number_literal-Within bs =
    let n = length bs in
    let r = (minus_part bs).1 in
    Within-bind (length r) n _ (whole_part-Within r) (λ whole r' l.
      Within-bind (suc (length r')) n _ (fraction_part-Within r') (λ fraction r'' l'.
        Within-bind (suc (length r'')) n _ (exponent_part-Within r'')
          (λ exponent rest l''. leaves (omega (arith, length-minus_part bs)))))

abbrev LeavesWord : ℕ → Option Bytes → Type 0
LeavesWord n none = Unit
LeavesWord n (some rest) = length rest < n

after_word-LeavesWord : (word bs : Bytes) → LeavesWord (suc (length bs)) (after_word word bs)
unfolding after_word
after_word-LeavesWord [] bs = omega arith
after_word-LeavesWord (w ∷ ws) [] = tt
after_word-LeavesWord (w ∷ ws) (c ∷ cs) =
    go (w == c) (after_word ws cs) (after_word-LeavesWord ws cs)
  where
    go :
        (b : Bool) (o : Option Bytes)
        → LeavesWord (suc (length cs)) o
        → LeavesWord (suc (length (c ∷ cs))) (if b then o else none)
    go true none h = tt
    go true (some rest) h = omega arith
    go false o h = tt

-- A word that is read is not empty.
abbrev IsKeyword : Bytes → Bytes → Type 0
IsKeyword word bs = LeavesWord (length bs) (after_word word bs)

after_word-IsKeyword : (w : ℕ) (ws bs : Bytes) → IsKeyword (w ∷ ws) bs
unfolding after_word
after_word-IsKeyword w ws [] = tt
after_word-IsKeyword w ws (c ∷ cs) = go (w == c) (after_word ws cs) (after_word-LeavesWord ws cs)
  where
    go :
        (b : Bool) (o : Option Bytes)
        → LeavesWord (suc (length cs)) o
        → LeavesWord (length (c ∷ cs)) (if b then o else none)
    go true none h = tt
    go true (some rest) h = h
    go false o h = tt

pub literal-Within {ℓ} :
    {A : Type ℓ} (w : ℕ) (ws : Bytes) (v : A) (bs : Bytes)
    → Within (length bs) (literal (w ∷ ws) v bs)
unfolding literal
literal-Within {A} w ws v bs = go (after_word (w ∷ ws) bs) (after_word-IsKeyword w ws bs)
  where
    go :
        (o : Option Bytes)
        → LeavesWord (length bs) o
        → Within (length bs) (elim o as (λ _. Result (A × Bytes)) [
          | none ↦ err unexpected_token bs
          | some rest ↦ ok (v, rest)
        ])
    go none h = refuses refl
    go (some rest) h = leaves h

module _ {ℓ} {A : Type ℓ} where
  pub closed_or-Within :
      (close : ℕ) (empty : A) (loop : Bytes → Result (A × Bytes)) (bs : Bytes)
      → ((cs : Bytes) → length cs ≤ length bs → Within (suc (length bs)) (loop cs))
      → Within (suc (length bs)) (closed_or close empty loop bs)
  unfolding closed_or
  closed_or-Within close empty loop bs h = go (skip_space bs) (length-skip_space bs)
    where
      go :
          (cs : Bytes)
          → length cs ≤ length bs
          → Within (suc (length bs)) (elim cs as (λ _. Result (A × Bytes)) [
            | [] ↦ loop []
            | c ∷ cs' ↦ if c == close then ok (empty, cs') else loop (c ∷ cs')
          ])
      go [] l = h [] l
      go (c ∷ cs') l = Within-if (c == close) (leaves {rest = cs'} (omega arith)) (h (c ∷ cs') l)

  pub next_or_close-Within :
      (n : ℕ) (m : Message) (close : ℕ) (done : A) (loop : Bytes → Result (A × Bytes)) (bs : Bytes)
      → is_fuel m ≡ false
      → length bs ≤ n
      → ((cs : Bytes) → length cs < length bs → Within n (loop cs))
      → Within n (next_or_close m close done loop bs)
  unfolding next_or_close
  next_or_close-Within n m close done loop bs e b h = go (skip_space bs) (length-skip_space bs)
    where
      go :
          (cs : Bytes)
          → length cs ≤ length bs
          → Within n (elim cs as (λ _. Result (A × Bytes)) [
            | [] ↦ err unexpected_end []
            | c ∷ cs' ↦
                if c == b','
                then loop cs'
                else if c == close
                then ok (done, cs')
                else err m (c ∷ cs')
          ])
      go [] l = refuses refl
      go (c ∷ cs') l =
          Within-if (c == b',') (h cs' (omega arith)) (
            Within-if (c == close) (leaves {rest = cs'} (omega arith)) (refuses {rest = c ∷ cs'} e))

colon-Within :
    (n : ℕ) (k bs : Bytes)
    → length bs ≤ n
    → Within n (elim (skip_space bs) as (λ _. Result (Bytes × Bytes)) [
      | [] ↦ err expected_colon []
      | d ∷ ds ↦ if d == b':' then ok (k, ds) else err expected_colon (d ∷ ds)
    ])
colon-Within n k bs h = go (skip_space bs) (length-skip_space bs)
  where
    go :
        (cs : Bytes)
        → length cs ≤ length bs
        → Within n (elim cs as (λ _. Result (Bytes × Bytes)) [
          | [] ↦ err expected_colon []
          | d ∷ ds ↦ if d == b':' then ok (k, ds) else err expected_colon (d ∷ ds)
        ])
    go [] l = refuses refl
    go (d ∷ ds) l =
        Within-if (d == b':') (leaves {rest = ds} (omega arith)) (refuses {rest = d ∷ ds} refl)

pub member_name-Within : (w : Bool) (bs : Bytes) → Within (length bs) (member_name w bs)
unfolding member_name
member_name-Within w [] = refuses refl
member_name-Within w (c ∷ cs) =
    Within-if (c == b'"')
      (Within-bind (suc (length cs)) (suc (length cs)) _ (string_literal-Within w cs)
        (λ k rest l. colon-Within (suc (length cs)) k rest (omega arith)))
      (refuses {rest = c ∷ cs} refl)
