-- ===== src/Jsonv/Termination.antt =====
-- internal/jsonv/jsonv.go: the parser never runs out of the fuel that it is given.
use pages.Common.{
  Bool, Option, [], ap, arith, codes, false, length, ltb, none, refl, some, suc, sym, true, zero, ℕ,
  ◌*◌, ◌<◌, ◌==◌, ◌||◌, ◌∙◌, ◌∷◌, ◌≡◌, ◌≢◌, ◌≤◌,
}
use pages.Jsonv.Entries.{put}
use pages.Jsonv.Numbers.{Doubles}
use pages.Jsonv.Parse.{
  at_end, elements, fuel_of, is_digit_byte, max_depth, members, number_value, parse_as, scalar,
  skip_space, value,
}
use pages.Jsonv.Pieces.{
  closed_or-Within, literal-Within, member_name-Within, next_or_close-Within, number_literal-Within,
}
use pages.Jsonv.Progress.{
  Within, Within-bind, Within-if, is_fuel, leaves, length-skip_space, refuses,
  string_literal-Within,
}
use pages.Jsonv.Utf8.{Bytes}
use pages.Jsonv.Values.{
  Fields, Items, Result, Value, append_item, arr, bad_number, boolean, end, entries_of, err,
  expected_comma_or_brace, expected_comma_or_bracket, fields_of, nil, null, num, obj, ok,
  out_of_fuel, ◌>>=◌,
}

module _ (F : Doubles) where
  open F use {Double}

  number_value-Within : (bs : Bytes) → Within (length bs) (number_value F bs)
  unfolding number_value
  number_value-Within bs =
      Within-bind (length bs) (length bs) _ (number_literal-Within bs)
        (λ text rest h. go (F.parse_float text) rest h)
    where
      go :
          (o : Option Double) (rest : Bytes)
          → length rest < length bs
          → Within (length bs) (elim o as (λ _. Result (Value Double × Bytes)) [
            | none ↦ err bad_number rest
            | some d ↦ ok (num d, rest)
          ])
      go none rest h = refuses refl
      go (some d) rest h = leaves h

  scalar-Within : (w : Bool) (c : ℕ) (cs : Bytes) → Within (suc (length cs)) (scalar F w c cs)
  unfolding scalar
  scalar-Within w c cs =
      Within-if (c == b'"')
        (Within-bind (suc (length cs)) (suc (length cs)) _ (string_literal-Within w cs)
          (λ s rest h. leaves h))
        (Within-if (c == b't') (literal-Within b't' (codes "rue") (boolean true) (c ∷ cs)) (
          Within-if (c == b'f') (literal-Within b'f' (codes "alse") (boolean false) (c ∷ cs)) (
            Within-if (c == b'n') (literal-Within b'n' (codes "ull") null (c ∷ cs)) (
              Within-if (c == b'-' || is_digit_byte c) (number_value-Within (c ∷ cs))
                (refuses {rest = c ∷ cs} refl)))))

  -- Two rounds for each byte, and one, are enough.
  mutual
    unfolding value

    value-Within :
        (w : Bool) (f depth : ℕ) (bs : Bytes)
        → 2 * length bs < f
        → Within (length bs) (value F w f depth bs)
    value-Within w zero depth bs h = absurd (omega arith)
    value-Within w (suc f) depth [] h =
        Within-if (ltb max_depth depth) (refuses {rest = []} refl) (refuses {rest = []} refl)
    value-Within w (suc f) depth (c ∷ cs) h =
        Within-if (ltb max_depth depth) (refuses {rest = c ∷ cs} refl) (
          Within-if (c == b'{')
            (closed_or-Within b'}' (obj end) (members F w f depth end) cs (λ ds l.
              members-Within w f depth end ds (suc (length cs)) (omega arith) (omega arith)))
            (Within-if (c == b'[')
              (closed_or-Within b']' (arr nil) (elements F w f depth nil) cs (λ ds l.
                elements-Within w f depth nil ds (suc (length cs)) (omega arith) (omega arith)))
              (scalar-Within w c cs)))

    members-Within :
        (w : Bool) (f depth : ℕ) (o : Fields Double) (bs : Bytes) (n : ℕ)
        → suc (2 * length bs) < f
        → length bs ≤ n
        → Within n (members F w f depth o bs)
    members-Within w zero depth o bs n h l = absurd (omega arith)
    members-Within w (suc f) depth o bs n h l =
        let shorter = length-skip_space bs in
        Within-bind (length (skip_space bs)) n _ (member_name-Within w (skip_space bs)) (λ k r lr.
          let short = length-skip_space r in
          Within-bind (length (skip_space r)) n _
            (value-Within w f (suc depth) (skip_space r) (omega arith))
            (λ v rest lv.
              next_or_close-Within n expected_comma_or_brace b'}' _ _ rest refl (omega arith)
                (λ cs lc.
                  members-Within w f depth (fields_of (put k v (entries_of o))) cs n (omega arith)
                    (omega arith))))

    elements-Within :
        (w : Bool) (f depth : ℕ) (xs : Items Double) (bs : Bytes) (n : ℕ)
        → suc (2 * length bs) < f
        → length bs ≤ n
        → Within n (elements F w f depth xs bs)
    elements-Within w zero depth xs bs n h l = absurd (omega arith)
    elements-Within w (suc f) depth xs bs n h l =
        let short = length-skip_space bs in
        Within-bind (length (skip_space bs)) n _
          (value-Within w f (suc depth) (skip_space bs) (omega arith))
          (λ v rest lv.
            next_or_close-Within n expected_comma_or_bracket b']' _ _ rest refl (omega arith)
              (λ cs lc.
                elements-Within w f depth (append_item v xs) cs n (omega arith) (omega arith)))

  abbrev is_spent : Result (Value Double) → Bool
  is_spent (ok v) = false
  is_spent (err m rest) = is_fuel m

  at_end-unspent : (v : Value Double) (t : Bytes) → is_spent (at_end F v t) ≡ false
  at_end-unspent v [] = refl
  at_end-unspent v (c ∷ cs) = refl

  whole-unspent :
      {n : ℕ} {r : Result (Value Double × Bytes)}
      → Within n r
      → is_spent (r >>= λ p. at_end F p.0 (skip_space p.1)) ≡ false
  whole-unspent (leaves {a = v} {rest = t} h) = at_end-unspent v (skip_space t)
  whole-unspent (refuses h) = h

  -- The parser ends for every text by itself: it never stops because the rounds that it is given are
  -- used up, two for each byte and one.
  pub parse_as-ends : (w : Bool) (bs rest : Bytes) → parse_as F w bs ≢ err out_of_fuel rest
  unfolding parse_as
  parse_as-ends w bs rest e =
      let start = skip_space bs in
      let unspent = whole-unspent (value-Within w (fuel_of F start) 0 start (omega arith)) in
      absurd_spent (sym unspent ∙ ap is_spent e)
    where
      absurd_spent : false ≡ true → ⊥
      absurd_spent p = cc
