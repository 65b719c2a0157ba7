-- ===== src/Jsonv/Model.antt =====
-- internal/jsonv/jsonv.go: Parse gives values of the model, and their texts are stable.
use pages.Common.{
  Bool-cases, Option, [], codes, false, inl, inr, ltb, ltb→ge, none, some, suc, true, zero, ℕ, ◌==◌,
  ◌||◌, ◌∷◌, ◌≡◌, ◌≤◌,
}
use pages.Jsonv.Canon.{ArePrintable, HasPrintable, IsPrintable}
use pages.Jsonv.Entries.{put}
use pages.Jsonv.Loops.{entries_of-fields_of}
use pages.Jsonv.Numbers.{Doubles}
use pages.Jsonv.Orders.{DistinctKeys}
use pages.Jsonv.Parse.{
  after_word, at_end, elements, fuel_of, is_digit_byte, literal, max_depth, members, number_literal,
  number_value, parse, parse_as, scalar, skip_space, value,
}
use pages.Jsonv.Parsed.{
  ArePrintable-append_item, DistinctKeys-put, Gives, Gives-bind, Gives-if, Gives-then,
  HasPrintable-put, closed_or-Gives, gives, member_name-GivesText, next_or_close-Gives, nothing,
  string_literal-GivesText,
}
use pages.Jsonv.Print.{stringify}
use pages.Jsonv.Reading.{Rounds}
use pages.Jsonv.Stable.{stringify-parse}
use pages.Jsonv.Utf8.{Bytes, valid}
use pages.Jsonv.Values.{
  Fields, Items, Result, Value, append_item, arr, bad_number, boolean, end, entries_of, err,
  expected_comma_or_brace, expected_comma_or_bracket, fields_of, nil, null, num, obj, ok,
  unexpected_token, ◌>>=◌,
}
use mathlib.Core.Path.{subst}

abbrev IsObjectAt : {D : Type 0} → ℕ → Fields D → Type 0
IsObjectAt depth o = DistinctKeys (entries_of o) × HasPrintable (suc depth) o

obj-IsPrintable :
    {D : Type 0} (depth : ℕ) (o : Fields D)
    → depth ≤ max_depth
    → IsObjectAt depth o
    → IsPrintable depth (obj o)
unfolding IsPrintable
obj-IsPrintable depth o b h = (b, h.0, h.1)

arr-IsPrintable :
    {D : Type 0} (depth : ℕ) (xs : Items D)
    → depth ≤ max_depth
    → ArePrintable (suc depth) xs
    → IsPrintable depth (arr xs)
unfolding IsPrintable
arr-IsPrintable depth xs b h = (b, h)

end-IsObjectAt : (D : Type 0) (depth : ℕ) → IsObjectAt {D = D} depth end
unfolding IsPrintable
end-IsObjectAt D depth = (tt, tt)

nil-ArePrintable : (D : Type 0) (depth : ℕ) → ArePrintable {D = D} depth nil
unfolding IsPrintable
nil-ArePrintable D depth = tt

added-IsObjectAt :
    {D : Type 0} (depth : ℕ) (o : Fields D) (k : Bytes) (v : Value D)
    → IsObjectAt depth o
    → valid k ≡ true
    → IsPrintable (suc depth) v
    → IsObjectAt depth (fields_of (put k v (entries_of o)))
added-IsObjectAt depth o k v h e p = (
  rw (entries_of-fields_of (put k v (entries_of o))) (DistinctKeys-put k v (entries_of o) h.0),
  HasPrintable-put (suc depth) k v o e p h.1,
)

module _ (F : Doubles) where
  open F use {Double}

  abbrev GivesValue : ℕ → Result (Value Double × Bytes) → Type 0
  GivesValue depth = Gives (IsPrintable depth)

  literal-GivesValue :
      (depth : ℕ) (word : Bytes) (v : Value Double) (bs : Bytes)
      → IsPrintable depth v
      → GivesValue depth (literal word v bs)
  unfolding literal
  literal-GivesValue depth word v bs h = go (after_word word bs)
    where
      go :
          (o : Option Bytes)
          → GivesValue depth (elim o as (λ _. Result (Value Double × Bytes)) [
            | none ↦ err unexpected_token bs
            | some rest ↦ ok (v, rest)
          ])
      go none = nothing
      go (some rest) = gives h

  number_value-GivesValue :
      (depth : ℕ) (bs : Bytes) → depth ≤ max_depth → GivesValue depth (number_value F bs)
  unfolding number_value IsPrintable
  number_value-GivesValue depth bs b =
      Gives-bind (number_literal bs) _ (λ text rest. go (F.parse_float text) rest)
    where
      go :
          (o : Option Double) (rest : Bytes)
          → GivesValue depth (elim o as (λ _. Result (Value Double × Bytes)) [
            | none ↦ err bad_number rest
            | some d ↦ ok (num d, rest)
          ])
      go none rest = nothing
      go (some d) rest = gives b

  scalar-GivesValue :
      (depth c : ℕ) (cs : Bytes) → depth ≤ max_depth → GivesValue depth (scalar F false c cs)
  unfolding scalar IsPrintable
  scalar-GivesValue depth c cs b =
      Gives-if (c == b'"') (Gives-then _ (string_literal-GivesText cs) (λ s rest v. gives (b, v))) (
        Gives-if (c == b't') (literal-GivesValue depth (codes "true") (boolean true) (c ∷ cs) b) (
          Gives-if (c == b'f') (literal-GivesValue depth (codes "false") (boolean false) (c ∷ cs) b)
            (Gives-if (c == b'n') (literal-GivesValue depth (codes "null") null (c ∷ cs) b) (
              Gives-if (c == b'-' || is_digit_byte c) (number_value-GivesValue depth (c ∷ cs) b)
                (nothing {rest = c ∷ cs})))))

  mutual
    unfolding value

    value-GivesValue : (f depth : ℕ) (bs : Bytes) → GivesValue depth (value F false f depth bs)
    value-GivesValue zero depth bs = nothing
    value-GivesValue (suc f) depth [] =
        Gives-if (ltb max_depth depth) (nothing {rest = []}) (nothing {rest = []})
    value-GivesValue (suc f) depth (c ∷ cs) = elim (Bool-cases (ltb max_depth depth)) [
      | inl deep ↦ rw deep nothing
      | inr shallow ↦
          let b = ltb→ge max_depth depth shallow in
          rw shallow (
            Gives-if (c == b'{')
              (closed_or-Gives (IsPrintable depth) b'}' (obj end) (members F false f depth end) cs
                (obj-IsPrintable depth end b (end-IsObjectAt Double depth))
                (λ ds. members-GivesValue f depth end ds b (end-IsObjectAt Double depth)))
              (Gives-if (c == b'[')
                (closed_or-Gives (IsPrintable depth) b']' (arr nil) (elements F false f depth nil)
                  cs (arr-IsPrintable depth nil b (nil-ArePrintable Double (suc depth)))
                  (λ ds.
                    elements-GivesValue f depth nil ds b (nil-ArePrintable Double (suc depth))))
                (scalar-GivesValue depth c cs b)))
    ]

    members-GivesValue :
        (f depth : ℕ) (o : Fields Double) (bs : Bytes)
        → depth ≤ max_depth
        → IsObjectAt depth o
        → GivesValue depth (members F false f depth o bs)
    members-GivesValue zero depth o bs b h = nothing
    members-GivesValue (suc f) depth o bs b h =
        Gives-then _ (member_name-GivesText (skip_space bs)) (λ k r e.
          Gives-then _ (value-GivesValue f (suc depth) (skip_space r)) (λ v rest p.
            let o' = fields_of (put k v (entries_of o)) in
            let h' = added-IsObjectAt depth o k v h e p in
            next_or_close-Gives (IsPrintable depth) expected_comma_or_brace b'}' (obj o')
              (members F false f depth o') rest (obj-IsPrintable depth o' b h')
              (λ cs. members-GivesValue f depth o' cs b h')))

    elements-GivesValue :
        (f depth : ℕ) (xs : Items Double) (bs : Bytes)
        → depth ≤ max_depth
        → ArePrintable (suc depth) xs
        → GivesValue depth (elements F false f depth xs bs)
    elements-GivesValue zero depth xs bs b h = nothing
    elements-GivesValue (suc f) depth xs bs b h =
        Gives-then _ (value-GivesValue f (suc depth) (skip_space bs)) (λ v rest p.
          let xs' = append_item v xs in
          let h' = ArePrintable-append_item (suc depth) v xs p h in
          next_or_close-Gives (IsPrintable depth) expected_comma_or_bracket b']' (arr xs')
            (elements F false f depth xs') rest (arr-IsPrintable depth xs' b h')
            (λ cs. elements-GivesValue f depth xs' cs b h'))

  ok-value :
      (u : Value Double) {v : Value Double}
      → (let r : Result (Value Double) = ok u in r) ≡ ok v
      → u ≡ v
  ok-value u e = cc

  at_end-gives :
      (P : Value Double → Type 0) (r : Result (Value Double × Bytes)) {v : Value Double}
      → Gives P r
      → (r >>= λ p. at_end F p.0 (skip_space p.1)) ≡ ok v
      → P v
  at_end-gives P r (gives {a} {rest} h) e = ends a (skip_space rest) h e
    where
      ends : (u : Value Double) (t : Bytes) {v : Value Double} → P u → at_end F u t ≡ ok v → P v
      ends u [] h e = subst P (ok-value u e) h
      ends u (c ∷ cs) h e = cc
  at_end-gives P r nothing e = cc

  -- What Parse gives is a value of the model: its strings and keys are valid UTF-8, the keys of each
  -- object differ, and it nests at most 10,000 deep.
  pub parse-IsPrintable : (bs : Bytes) {v : Value Double} → parse F bs ≡ ok v → IsPrintable 0 v
  unfolding parse parse_as
  parse-IsPrintable bs e =
      let start = skip_space bs in
      at_end-gives (IsPrintable 0) (value F false (fuel_of F start) 0 start)
        (value-GivesValue (fuel_of F start) 0 start) e

module _ {F : Doubles} (R : Rounds F) where
  open F use {Double}

  -- A text that Parse accepts has a normal form: the value is written as a text that Parse reads, and
  -- that is written again as the same text. Numbers are as `Rounds` says.
  pub parse-normal :
      (bs : Bytes) {v : Value Double}
      → parse F bs ≡ ok v
      → (u : Value Double) × (parse F (stringify F v) ≡ ok u) × (stringify F u ≡ stringify F v)
  unfolding parse
  parse-normal bs {v} e = stringify-parse R false v (parse-IsPrintable F bs e)
