-- ===== src/Cron/Fields.antt =====
-- internal/cron/cron.go: what the parser accepts, and the lists of numbers that it reads back.
use pages.Common.{
  Bool-cases, List, Option, Option-cases, Text, [], arith, inl, inr, ltb, none, not, some, suc, sym,
  true, ℕ, ◌&&◌, ◌*◌, ◌++◌, ◌+◌, ◌||◌, ◌↔◌, ◌∷◌, ◌≡◌, ◌≤◌,
}
use pages.Common.Strings.{cut_at, has_char, split_at}
use pages.Cron.Items.{ItemText, step_of-text}
use pages.Cron.Parse.{
  Field, bad_step, check_range, check_step, failed, is_star, lone_step, number, out_of_range,
  parse_field, parse_item, parse_items, parsed, range_of, step_of, stepped, ◌>>=◌,
}
use pages.Cron.Schedule.{has_bit}
use pages.Cron.Values.{>>=-parsed, InField, parsed_inj, stepped-InField, stepped_iff}
use mathlib.Core.Path.{subst}

-- Bounds that `range_of` and `check_step` have tested.
check_range-bounds :
    (f : Field) (a b : Option ℕ) (ends : ℕ × ℕ)
    → check_range f a b ≡ parsed ends
    → (f.low ≤ ends.0) × (ends.0 ≤ ends.1) × (ends.1 ≤ f.high)
unfolding check_range
check_range-bounds f (some a) (some b) ends e =
    elim (Bool-cases (ltb a f.low || ltb f.high b || ltb b a)) [
      | inl t ↦ let no : failed out_of_range ≡ parsed ends = rw t at e in cc
      | inr t ↦
          let same : (a, b) ≡ ends = parsed_inj (rw t at e) in
          rw (sym same) (ground arith, ground arith, ground arith)
    ]
check_range-bounds f none b ends e = cc
check_range-bounds f (some a) none ends e = cc

range_of-bounds :
    (f : Field) (range : Text) (ends : ℕ × ℕ)
    → f.low ≤ f.high
    → range_of f range ≡ parsed ends
    → (f.low ≤ ends.0) × (ends.0 ≤ ends.1) × (ends.1 ≤ f.high)
unfolding range_of
range_of-bounds f range ends ok e = elim (Bool-cases (is_star range)) [
  | inl t ↦
      let same : (f.low, f.high) ≡ ends = parsed_inj (rw t at e) in
      rw (sym same) (omega arith, ok, omega arith)
  | inr t ↦ elim (Option-cases (cut_at 45 range).1) [
    | inl a ↦
        check_range-bounds f (number (cut_at 45 range).0) (number (cut_at 45 range).0) ends
          (rw (t, a) at e)
    | inr (b, a) ↦
        check_range-bounds f (number (cut_at 45 range).0) (number b) ends (rw (t, a) at e)
  ]
]

check_step-pos :
    (f : Field) (range : Text) (o : Option ℕ) (n : ℕ) → check_step f range o ≡ parsed n → 1 ≤ n
unfolding check_step
check_step-pos f range none n e = cc
check_step-pos f range (some m) n e = elim (Bool-cases (ltb m 1 || ltb f.high m)) [
  | inl t ↦ let no : failed bad_step ≡ parsed n = rw t at e in cc
  | inr t ↦ elim (Bool-cases (not (is_star range) && not (has_char 45 range))) [
    | inl u ↦ let no : failed lone_step ≡ parsed n = rw (t, u) at e in cc
    | inr u ↦ let same : m ≡ n = parsed_inj (rw (t, u) at e) in ground arith
  ]
]

step_of-pos : (f : Field) (item : Text) (cut : Text × ℕ) → step_of f item ≡ parsed cut → 1 ≤ cut.1
unfolding step_of
step_of-pos f item cut e = elim (Option-cases (cut_at 47 item).1) [
  | inl a ↦
      let same : (item, 1) ≡ cut = parsed_inj (rw (a, step_of) at e) in rw (sym same) (omega arith)
  | inr (text, a) ↦
      let range = (cut_at 47 item).0 in
      let whole : (check_step f range (number text) >>= λ n. parsed (range, n)) ≡ parsed cut =
        rw (a, step_of) at e in
      let (n, tested, r) =
        >>=-parsed (check_step f range (number text)) (λ n. parsed (range, n)) cut whole in
      let same : (range, n) ≡ cut = parsed_inj r in
      rw (sym same) (check_step-pos f range (number text) n tested)
]

set_by :
    (a b step : ℕ) (bits : List ℕ)
    → 1 ≤ step
    → stepped (suc b) a b step ≡ bits
    → (x : ℕ) → (has_bit x bits ≡ true) ↔ ((k : ℕ) × (x ≡ a + k * step) × (x ≤ b))
set_by a b step bits pos same x =
    subst (λ l. (has_bit x l ≡ true) ↔ ((k : ℕ) × (x ≡ a + k * step) × (x ≤ b))) same
      (stepped_iff (suc b) a b step x (omega arith) pos)

-- An item that parses is a number, a range or `*`, or one of these two with a step; its numbers have
-- one or two digits, and a range lies within the field. It sets exactly the bits from the lower bound
-- that its text says, in the steps that its text says (1 if it says none), up to the upper bound that
-- its text says. The field itself is not empty.
pub parse_item_iff :
    (f : Field) (item : Text) (bits : List ℕ)
    → f.low ≤ f.high
    → parse_item f item ≡ parsed bits
    → (a : ℕ) × (b : ℕ) × (step : ℕ) × ItemText f item a b step
      × (f.low ≤ a)
      × (a ≤ b)
      × (b ≤ f.high)
      × (1 ≤ step)
      × ((x : ℕ) → (has_bit x bits ≡ true) ↔ ((k : ℕ) × (x ≡ a + k * step) × (x ≤ b)))
unfolding parse_item
parse_item_iff f [] bits ok e = cc
parse_item_iff f (c ∷ cs) bits ok e =
    let (cut, q, r) =
      >>=-parsed (step_of f (c ∷ cs))
        (λ cut. range_of f cut.0 >>= λ ends. parsed (stepped (suc ends.1) ends.0 ends.1 cut.1)) bits
        e in
    let (ends, u, v) =
      >>=-parsed (range_of f cut.0) (λ ends. parsed (stepped (suc ends.1) ends.0 ends.1 cut.1)) bits
        r in
    let pos = step_of-pos f (c ∷ cs) cut q in
    let bounds = range_of-bounds f cut.0 ends ok u in
    let same : stepped (suc ends.1) ends.0 ends.1 cut.1 ≡ bits = parsed_inj v in
    (
      ends.0,
      ends.1,
      cut.1,
      step_of-text f (c ∷ cs) cut ends q u,
      bounds.0,
      bounds.1,
      bounds.2,
      pos,
      set_by ends.0 ends.1 cut.1 bits pos same,
    )

append-InField : (f : Field) (xs ys : List ℕ) → InField f xs → InField f ys → InField f (xs ++ ys)
append-InField f [] ys h k = k
append-InField f (x ∷ xs) ys h k = (h.0, append-InField f xs ys h.1 k)

parse_item-InField :
    (f : Field) (item : Text) (bits : List ℕ)
    → f.low ≤ f.high
    → parse_item f item ≡ parsed bits
    → InField f bits
unfolding parse_item
parse_item-InField f [] bits ok e = cc
parse_item-InField f (c ∷ cs) bits ok e =
    let (cut, q, r) =
      >>=-parsed (step_of f (c ∷ cs))
        (λ cut. range_of f cut.0 >>= λ ends. parsed (stepped (suc ends.1) ends.0 ends.1 cut.1)) bits
        e in
    let (ends, u, v) =
      >>=-parsed (range_of f cut.0) (λ ends. parsed (stepped (suc ends.1) ends.0 ends.1 cut.1)) bits
        r in
    let bounds = range_of-bounds f cut.0 ends ok u in
    subst (InField f) (parsed_inj v)
      (stepped-InField f (suc ends.1) ends.0 ends.1 cut.1 bounds.0 bounds.2)

parse_items-InField :
    (f : Field) (items : List Text) (bits : List ℕ)
    → f.low ≤ f.high
    → parse_items f items ≡ parsed bits
    → InField f bits
unfolding parse_items
parse_items-InField f [] bits ok e =
    let same : [] ≡ bits = parsed_inj e in subst (InField f) same tt
parse_items-InField f (item ∷ items) bits ok e =
    let (xs, q, r) =
      >>=-parsed (parse_item f item) (λ bits. parse_items f items >>= λ more. parsed (bits ++ more))
        bits e in
    let (ys, u, v) = >>=-parsed (parse_items f items) (λ more. parsed (xs ++ more)) bits r in
    subst (InField f) (parsed_inj v) (
      append-InField f xs ys (parse_item-InField f item xs ok q)
        (parse_items-InField f items ys ok u))

pub parse_field-InField :
    (f : Field) (text : Text) (bits : List ℕ)
    → f.low ≤ f.high
    → parse_field f text ≡ parsed bits
    → InField f bits
unfolding parse_field
parse_field-InField f text bits ok e =
    let (item, items) = split_at 44 text in parse_items-InField f (item ∷ items) bits ok e
