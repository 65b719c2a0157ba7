-- ===== src/Cron/Items.antt =====
-- internal/cron/cron.go: the text of one item of a field.
use pages.Common.{
  ==_iff, Bool-cases, Option, Text, [], ap, arith, codes, false, inl, inr, ltb, none, not, refl,
  some, sym, true, ℕ, ◌&&◌, ◌++◌, ◌==◌, ◌||◌, ◌∙◌, ◌∷◌, ◌≡◌, ◌≢◌, ◌≤◌, ◌⊎◌,
}
use pages.Common.Rows.{some_inj}
use pages.Common.Strings.{byte_len, cut_at, decimal_value, has_char, only_digits}
use pages.Cron.Parse.{
  Field, Parsed, bad_step, check_range, check_step, failed, is_star, lone_step, number,
  out_of_range, parsed, range_of, step_of, ◌>>=◌,
}
use pages.Cron.Values.{>>=-parsed, parsed_inj}
use mathlib.Core.Path.{subst}

-- One or two decimal digits, and their value.
pub record IsNumber (t : Text) (n : ℕ) : Type 0 where
  pub some_digit : byte_len t ≢ 0
  pub two_at_most : byte_len t ≤ 2
  pub digits : only_digits t ≡ true
  pub shows : decimal_value 0 t ≡ n

-- A range that may have a step: the whole field, or the two ends.
pub data Wide (f : Field) : Text → ℕ → ℕ → Type 0 where
  every : Wide f (codes "*") f.low f.high
  span : {t u : Text} {a b : ℕ} → IsNumber t a → IsNumber u b → Wide f (t ++ b'-' ∷ u) a b

-- What an item says: its lower and its upper bound, and its step.
pub data ItemText (f : Field) : Text → ℕ → ℕ → ℕ → Type 0 where
  single : {t : Text} {n : ℕ} → IsNumber t n → ItemText f t n n 1
  whole_range : {t : Text} {a b : ℕ} → Wide f t a b → ItemText f t a b 1
  in_steps :
      {t u : Text} {a b n : ℕ}
      → Wide f t a b
      → IsNumber u n
      → n ≤ f.high
      → ItemText f (t ++ b'/' ∷ u) a b n

-- The text is what stands before the separator, the separator and what stands after it.
abbrev pub Cut : ℕ → Text → Text × Option Text → Type 0
Cut sep t (x, none) = (x ≡ t) × (has_char sep t ≡ false)
Cut sep t (x, some u) = t ≡ x ++ sep ∷ u

pub cut_at-Cut : (sep : ℕ) (t : Text) → Cut sep t (cut_at sep t)
unfolding cut_at has_char
cut_at-Cut sep [] = (refl, refl)
cut_at-Cut sep (c ∷ cs) = elim (Bool-cases (c == sep)) [
  | inl e ↦ rw e (ap (λ (d : ℕ). d ∷ cs) ((==_iff c sep).0 e))
  | inr e ↦ rw e (go (cut_at sep cs) (cut_at-Cut sep cs) e)
]
  where
    go :
        (p : Text × Option Text)
        → Cut sep cs p
        → (c == sep) ≡ false
        → Cut sep (c ∷ cs) (c ∷ p.0, p.1)
    go (x, none) (h, k) e = (ap (◌∷◌ c) h, rw e k)
    go (x, some u) h e = ap (◌∷◌ c) h

pub number-IsNumber : (t : Text) (n : ℕ) → number t ≡ some n → IsNumber t n
unfolding number
number-IsNumber t n h = elim (Bool-cases (byte_len t == 0 || ltb 2 (byte_len t))) [
  | inl wrong ↦ absurd (none_some (rw wrong at h))
  | inr sized ↦ elim (Bool-cases (only_digits t)) [
    | inr wrong ↦ absurd (none_some (rw (sized, wrong) at h))
    | inl digits ↦
        let same : some (decimal_value 0 t) ≡ some n = rw (sized, digits) at h in
        record {
          some_digit = λ z. ground arith;
          two_at_most = ground arith;
          digits = digits;
          shows = some_inj same;
        }
  ]
]
  where
    none_some : none ≡ some n → ⊥
    none_some e = cc

check_range-numbers :
    (f : Field) (o p : Option ℕ) (ends : ℕ × ℕ)
    → check_range f o p ≡ parsed ends
    → (o ≡ some ends.0) × (p ≡ some ends.1)
unfolding check_range
check_range-numbers f (some a) (some b) ends e =
    elim (Bool-cases (ltb a f.low || ltb f.high b || ltb b a)) [
      | inl wrong ↦ let no : failed out_of_range ≡ parsed ends = rw wrong at e in cc
      | inr right ↦
          let same : (a, b) ≡ ends = parsed_inj (rw right at e) in
          (ap (λ (q : ℕ × ℕ). some q.0) same, ap (λ (q : ℕ × ℕ). some q.1) same)
    ]
check_range-numbers f none p ends e = cc
check_range-numbers f (some a) none ends e = cc

is_star-text : (t : Text) → is_star t ≡ true → t ≡ codes "*"
is_star-text [] h = cc
is_star-text (c ∷ []) h = ap (λ (d : ℕ). d ∷ []) ((==_iff c 42).0 h)
is_star-text (c ∷ d ∷ cs) h = cc

-- A number by itself, which is not wide.
pub record Lone (t : Text) (a b : ℕ) : Type 0 where
  pub one_number : IsNumber t a
  pub same_end : a ≡ b
  pub no_star : is_star t ≡ false
  pub no_dash : has_char b'-' t ≡ false

-- The bounds are the ones that the text says.
pub range_of-text :
    (f : Field) (range : Text) (ends : ℕ × ℕ)
    → range_of f range ≡ parsed ends
    → Wide f range ends.0 ends.1 ⊎ Lone range ends.0 ends.1
unfolding range_of
range_of-text f range ends e = elim (Bool-cases (is_star range)) [
  | inl star ↦
      let same : (f.low, f.high) ≡ ends = parsed_inj (rw star at e) in
      rw (is_star-text range star) (inl (subst (λ q. Wide f (codes "*") q.0 q.1) same every))
  | inr plain ↦ numbers plain (cut_at 45 range) (cut_at-Cut 45 range) (rw plain at e)
]
  where
    numbers :
        is_star range ≡ false
        → (p : Text × Option Text) → Cut 45 range p
        → (elim p.1 as (λ _. Parsed (ℕ × ℕ)) [
          | none ↦ check_range f (number p.0) (number p.0)
          | some b ↦ check_range f (number p.0) (number b)
        ])
          ≡ parsed ends
        → Wide f range ends.0 ends.1 ⊎ Lone range ends.0 ends.1
    numbers plain (t, none) (same, no_dash) e =
        let (low, high) = check_range-numbers f (number t) (number t) ends e in
        inr (record {
          one_number = subst (λ x. IsNumber x ends.0) same (number-IsNumber t ends.0 low);
          same_end = some_inj (sym low ∙ high);
          no_star = plain;
          no_dash = no_dash;
        })
    numbers plain (t, some u) cut e =
        let (low, high) = check_range-numbers f (number t) (number u) ends e in
        rw cut (inl (span (number-IsNumber t ends.0 low) (number-IsNumber u ends.1 high)))

check_step-text :
    (f : Field) (range : Text) (o : Option ℕ) (n : ℕ)
    → check_step f range o ≡ parsed n
    → (o ≡ some n) × (n ≤ f.high) × (is_star range ≡ false → has_char b'-' range ≡ false → ⊥)
unfolding check_step
check_step-text f range none n e = cc
check_step-text f range (some m) n e = elim (Bool-cases (ltb m 1 || ltb f.high m)) [
  | inl wrong ↦ let no : failed bad_step ≡ parsed n = rw wrong at e in cc
  | inr right ↦ elim (Bool-cases (not (is_star range) && not (has_char 45 range))) [
    | inl alone ↦ let no : failed lone_step ≡ parsed n = rw (right, alone) at e in cc
    | inr wide ↦
        let same : m ≡ n = parsed_inj (rw (right, wide) at e) in
        (ap some same, ground arith, λ p q. ground arith)
  ]
]

-- The range and the step of an item are the ones that its text says.
pub step_of-text :
    (f : Field) (item : Text) (cut : Text × ℕ) (ends : ℕ × ℕ)
    → step_of f item ≡ parsed cut
    → range_of f cut.0 ≡ parsed ends
    → ItemText f item ends.0 ends.1 cut.1
unfolding step_of
step_of-text f item cut ends e g = parts (cut_at 47 item) (cut_at-Cut 47 item) e
  where
    whole_item :
        (t : Text) (n : ℕ)
        → (t, n) ≡ cut
        → n ≡ 1
        → Wide f t ends.0 ends.1 ⊎ Lone t ends.0 ends.1
        → ItemText f t ends.0 ends.1 cut.1
    whole_item t n same one (inl wide) =
        subst (λ k. ItemText f t ends.0 ends.1 k) (sym one ∙ ap (λ (q : Text × ℕ). q.1) same)
          (whole_range wide)
    whole_item t n same one (inr lone) =
        subst (λ k. ItemText f t ends.0 ends.1 k) (sym one ∙ ap (λ (q : Text × ℕ). q.1) same)
          (subst (λ b. ItemText f t ends.0 b 1) lone.same_end (single lone.one_number))

    stepping :
        (t u : Text) (n : ℕ)
        → check_step f t (number u) ≡ parsed n
        → Wide f t ends.0 ends.1 ⊎ Lone t ends.0 ends.1
        → ItemText f (t ++ b'/' ∷ u) ends.0 ends.1 n
    stepping t u n tested (inl wide) =
        let (shown, within, _) = check_step-text f t (number u) n tested in
        in_steps wide (number-IsNumber u n shown) within
    stepping t u n tested (inr lone) =
        let (_, _, not_lone) = check_step-text f t (number u) n tested in
        absurd (not_lone lone.no_star lone.no_dash)

    parts :
        (p : Text × Option Text)
        → Cut 47 item p
        → (elim p.1 as (λ _. Parsed (Text × ℕ)) [
          | none ↦ parsed (item, 1)
          | some text ↦ check_step f p.0 (number text) >>= λ n. parsed (p.0, n)
        ])
          ≡ parsed cut
        → ItemText f item ends.0 ends.1 cut.1
    parts (t, none) h e =
        let same : (item, 1) ≡ cut = parsed_inj e in
        let read : range_of f item ≡ parsed ends = ap (λ (q : Text × ℕ). range_of f q.0) same ∙ g in
        whole_item item 1 same refl (range_of-text f item ends read)
    parts (t, some u) h e =
        let (n, tested, r) = >>=-parsed (check_step f t (number u)) (λ n. parsed (t, n)) cut e in
        let same : (t, n) ≡ cut = parsed_inj r in
        let read : range_of f t ≡ parsed ends = ap (λ (q : Text × ℕ). range_of f q.0) same ∙ g in
        rw h (
          subst (λ k. ItemText f (t ++ b'/' ∷ u) ends.0 ends.1 k) (ap (λ (q : Text × ℕ). q.1) same)
            (stepping t u n tested (range_of-text f t ends read)))
