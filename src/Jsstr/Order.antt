-- ===== src/Jsstr/Order.antt =====
-- The order of strings in internal/jsstr/jsstr.go, on code points, and the order by code units.
use pages.Common.{
  ==_iff, All, Bool, Bool-cases, List, Text, [], ap, arith, false, if◌then◌else◌, inl, inr, leb,
  leb→le, ltb, not, refl, sym, true, ℕ, ◌%◌, ◌+◌, ◌-◌, ◌/◌, ◌<◌, ◌==◌, ◌∙◌, ◌∷◌, ◌≡◌, ◌≤◌, ◌⊎◌,
}
use pages.Jsstr.{encode, encode_rune}
use pages.Jsstr.Units.{IsScalar}

-- The result of a comparison: -1, 0, 1.
pub data Sign : Type 0 where
  precedes equals follows : Sign

-- The sign of two numbers that are not the same.
abbrev pub sign : ℕ → ℕ → Sign
sign a b = if ltb a b then precedes else follows

-- `firstUnit`
abbrev pub first_unit : ℕ → ℕ
first_unit r = if leb 0x10000 r then 0xd800 + (r - 0x10000) / 0x400 else r

-- Two runes that are not the same.
unfoldable pub compare_runes : ℕ → ℕ → Sign
compare_runes x y =
    let u = first_unit x in let v = first_unit y in if not (u == v) then sign u v else sign x y

-- `Compare`
unfoldable pub compare_texts : Text → Text → Sign
unfolding compare_runes
compare_texts [] [] = equals
compare_texts [] (y ∷ b) = precedes
compare_texts (x ∷ a) [] = follows
compare_texts (x ∷ a) (y ∷ b) =
    let rest = compare_texts a b in if not (x == y) then compare_runes x y else rest

-- The order of lists of code units, which JavaScript's `<` is.
unfoldable pub compare_units : List ℕ → List ℕ → Sign
compare_units [] [] = equals
compare_units [] (y ∷ b) = precedes
compare_units (x ∷ a) [] = follows
compare_units (x ∷ a) (y ∷ b) = let rest = compare_units a b in if x == y then rest else sign x y

abbrev high : ℕ → ℕ
high r = 0xd800 + (r - 0x10000) / 0x400

abbrev low : ℕ → ℕ
low r = 0xdc00 + (r - 0x10000) % 0x400

-- A high surrogate is no scalar value.
high-scalar : (x y : ℕ) → IsScalar x → IsScalar y → 0x10000 ≤ x → (high x == y) ≡ false
high-scalar x y a b h = go a.0 b.1
  where
    go : x < 0x110000 → (y < 0xd800) ⊎ (0xe000 ≤ y) → (high x == y) ≡ false
    go l (inl k) = ground arith
    go l (inr k) = ground arith

eq_sym : (x y : ℕ) → (x == y) ≡ (y == x)
eq_sym x y = ground arith

-- Two pairs with one high surrogate compare by the low ones as the runes do.
low-sign :
    (x y : ℕ)
    → 0x10000 ≤ x
    → 0x10000 ≤ y
    → (high x == high y) ≡ true
    → ((low x == low y) ≡ (x == y)) × (ltb (low x) (low y) ≡ ltb x y)
low-sign x y h k e = let q = (==_iff (high x) (high y)).0 e in (ground arith, ground arith)

low-same : (x y : ℕ) → (x == y) ≡ true → (high x == high y) ≡ true
low-same x y e = (==_iff (high x) (high y)).1 (ap high ((==_iff x y).0 e))

-- One rune each.
module _ (x y : ℕ) (a b : List ℕ) (sx : IsScalar x) (sy : IsScalar y) where
  wide_heads :
      0x10000 ≤ x
      → 0x10000 ≤ y
      → (if high x == high y
          then (if low x == low y then compare_units a b else sign (low x) (low y))
          else sign (high x) (high y))
        ≡ (if not (x == y)
            then (if not (high x == high y) then sign (high x) (high y) else sign x y)
            else compare_units a b)
  wide_heads h k = elim (Bool-cases (high x == high y)) [
    | inl e ↦ let (q, l) = low-sign x y h k e in rw (e, q, l) (flip (x == y))
    | inr e ↦ elim (Bool-cases (x == y)) [
      | inl q ↦ let no : true ≡ false = sym (low-same x y q) ∙ e in cc
      | inr q ↦ rw (e, q) refl
    ]
  ]
    where
      flip :
          (c : Bool)
          → (if c then compare_units a b else sign x y)
            ≡ (if not c then sign x y else compare_units a b)
      flip true = refl
      flip false = refl

  heads :
      compare_units (encode_rune x a) (encode_rune y b)
      ≡ (if not (x == y) then compare_runes x y else compare_units a b)
  unfolding compare_units compare_runes
  heads = elim (Bool-cases (leb 0x10000 x)) [
    | inl p ↦ elim (Bool-cases (leb 0x10000 y)) [
      | inl q ↦ rw (p, q) (wide_heads (leb→le 0x10000 x p) (leb→le 0x10000 y q))
      | inr q ↦
          let other = high-scalar x y sx sy (leb→le 0x10000 x p) in
          let apart : (x == y) ≡ false = ground arith in rw (p, q, other, apart) refl
    ]
    | inr p ↦ elim (Bool-cases (leb 0x10000 y)) [
      | inl q ↦
          let other = eq_sym x (high y) ∙ high-scalar y x sy sx (leb→le 0x10000 y q) in
          let apart : (x == y) ≡ false = ground arith in rw (p, q, other, apart) refl
      | inr q ↦ elim (Bool-cases (x == y)) [ inl e ↦ rw (p, q, e) refl | inr e ↦ rw (p, q, e) refl ]
    ]
  ]

nothing : compare_units [] [] ≡ equals
unfolding compare_units
nothing = refl

before_rune : (y : ℕ) (b : List ℕ) → compare_units [] (encode_rune y b) ≡ precedes
unfolding compare_units
before_rune y b = elim (Bool-cases (leb 0x10000 y)) [ inl e ↦ rw e refl | inr e ↦ rw e refl ]

after_rune : (x : ℕ) (a : List ℕ) → compare_units (encode_rune x a) [] ≡ follows
unfolding compare_units
after_rune x a = elim (Bool-cases (leb 0x10000 x)) [ inl e ↦ rw e refl | inr e ↦ rw e refl ]

-- `Compare` of valid strings is the order of their code units in UTF-16.
pub compare_texts-encode :
    (a b : Text)
    → All IsScalar a
    → All IsScalar b
    → compare_texts a b ≡ compare_units (encode a) (encode b)
unfolding compare_texts encode
compare_texts-encode [] [] h k = sym nothing
compare_texts-encode [] (y ∷ b) h k = sym (before_rune y (encode b))
compare_texts-encode (x ∷ a) [] h k = sym (after_rune x (encode a))
compare_texts-encode (x ∷ a) (y ∷ b) h k =
    ap (λ r. if not (x == y) then compare_runes x y else r) (compare_texts-encode a b h.1 k.1)
    ∙ sym (heads x y (encode a) (encode b) h.0 k.0)
