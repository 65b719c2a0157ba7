-- ===== src/Client/Masks.antt =====
-- internal/clientip/clientip.go: the masks that `prefixFromMask` accepts.
use pages.Client.Policy.{leading_ones, prefix_from_mask}
use pages.Common.{
  ==_iff, Bool, Bool-cases, Option, ap, arith, false, inl, inr, ltb, ltb→ge, ltb→lt, none, refl,
  some, suc, sym, true, zero, ℕ, ◌%◌, ◌&&◌, ◌*◌, ◌+◌, ◌-◌, ◌/◌, ◌<◌, ◌==◌, ◌^◌, ◌↔◌, ◌∙◌, ◌≡◌, ◌≤◌,
}
use pages.Common.Rows.{some_inj}
use mathlib.Core.Path.{subst}
use native.Mathlib.Nat.{
  suc-mul, pow-zero, add-mul, add-mul-mod_self_left, div-add-mod', div-div-eq-div-mul, mod-eq_of_lt,
  mod-lt, mul-lt-mul_of_pos_right, mul-le-mul_right, pow-suc, one-le-pow, mul_assoc, mul_comm,
}

-- The first `n` bits of 32 are ones.
abbrev Ones : ℕ → ℕ → Type 0
Ones v n = v / 2 ^ (32 - n) ≡ 2 ^ n - 1

pow_pos : (n : ℕ) → 1 ≤ 2 ^ n
pow_pos n = one-le-pow n 2 (omega arith)

Ones-more : (v n : ℕ) → n < 32 → Ones v n → v / 2 ^ (31 - n) % 2 ≡ 1 → Ones v (suc n)
Ones-more v n h e b =
    let shorter : 32 - suc n ≡ 31 - n = omega arith in
    let longer : suc (31 - n) ≡ 32 - n = omega arith in
    let half : v / 2 ^ (31 - n) / 2 ≡ v / 2 ^ (32 - n) =
      div-div-eq-div-mul v (2 ^ (31 - n)) 2
      ∙ ap (λ x. v / x) (sym (pow-suc 2 (31 - n)) ∙ ap (λ x. 2 ^ x) longer) in
    let twice = pow-suc 2 n in let pos = pow_pos n in ap (λ x. v / 2 ^ x) shorter ∙ (omega arith)

leading_ones-Ones :
    (fuel v n : ℕ)
    → n + fuel ≡ 32
    → Ones v n
    → (leading_ones fuel v n ≤ 32) × Ones v (leading_ones fuel v n)
unfolding leading_ones
leading_ones-Ones zero v n h e = (omega arith, e)
leading_ones-Ones (suc fuel) v n h e = elim (Bool-cases (v / 2 ^ (31 - n) % 2 == 1)) [
  | inl k ↦ rw k (
      leading_ones-Ones fuel v (suc n) (omega arith)
        (Ones-more v n (omega arith) e ((==_iff (v / 2 ^ (31 - n) % 2) 1).0 k)))
  | inr k ↦ rw k (omega arith, e)
]

-- A number with `n` ones, and nothing after them.
no_rest :
    (a b r : ℕ) → a * b ≡ 2 ^ 32 → 1 ≤ b → r < a → (((b - 1) * a + r) * b) % 2 ^ 32 ≡ 0 → r ≡ 0
no_rest a b r whole pos small e =
    let less : r * b < 2 ^ 32 =
      subst (λ x. r * b < x) whole (mul-lt-mul_of_pos_right small (omega arith)) in
    let front : (b - 1) * a * b ≡ 2 ^ 32 * (b - 1) =
      mul_assoc (b - 1) a b ∙ ap (λ x. (b - 1) * x) whole ∙ mul_comm (b - 1) (2 ^ 32) in
    let parts = add-mul ((b - 1) * a) r b in
    let sum : ((b - 1) * a + r) * b ≡ r * b + 2 ^ 32 * (b - 1) = parts ∙ (omega arith) in
    let zero_rest : r * b ≡ 0 =
      sym (mod-eq_of_lt less)
      ∙ sym (add-mul-mod_self_left (r * b) (2 ^ 32) (b - 1))
      ∙ ap (λ x. x % 2 ^ 32) (sym sum)
      ∙ e in
    elim (Bool-cases (ltb 0 r)) [
      | inl k ↦ let many : 1 * b ≤ r * b = mul-le-mul_right b (ltb→lt 0 r k) in absurd (omega arith)
      | inr k ↦ let none_left = ltb→ge 0 r k in omega arith
    ]

-- The mask of `n` ones.
abbrev pub mask : ℕ → ℕ
mask n = 2 ^ 32 - 2 ^ (32 - n)

abbrev is_bits : Option ℕ → ℕ → Bool
is_bits none n = false
is_bits (some m) n = m == n

-- Each of the masks from `n` is read back.
abbrev all_read : ℕ → ℕ → Bool
all_read zero n = true
all_read (suc fuel) n = is_bits (prefix_from_mask (mask n)) n && all_read fuel (suc n)

every_mask : all_read 33 0 ≡ true
unfolding prefix_from_mask
every_mask = refl

is_bits-some : (o : Option ℕ) (n : ℕ) → is_bits o n ≡ true → o ≡ some n
is_bits-some none n e = cc
is_bits-some (some m) n e = ap some ((==_iff m n).0 e)

read_one :
    (fuel n k : ℕ)
    → all_read fuel n ≡ true
    → n ≤ k
    → k < n + fuel
    → prefix_from_mask (mask k) ≡ some k
read_one zero n k e a b = absurd (omega arith)
read_one (suc fuel) n k e a b = elim (Bool-cases (is_bits (prefix_from_mask (mask n)) n)) [
  | inr h ↦ let no : false ≡ true = rw h at e in cc
  | inl h ↦ elim (Bool-cases (n == k)) [
    | inl q ↦
        let here : n ≡ k = (==_iff n k).0 q in
        subst (λ x. prefix_from_mask (mask x) ≡ some x) here
          (is_bits-some (prefix_from_mask (mask n)) n h)
    | inr q ↦
        let later : n < k = ground arith in read_one fuel (suc n) k (rw h at e) later (omega arith)
  ]
]

prefix_from_mask-mask : (n : ℕ) → n ≤ 32 → prefix_from_mask (mask n) ≡ some n
prefix_from_mask-mask n h = read_one 33 0 n every_mask (omega arith) (omega arith)

pow_sum : (m n : ℕ) → 2 ^ m * 2 ^ n ≡ 2 ^ (m + n)
pow_sum m zero =
    let flat : m + zero ≡ m = omega arith in
    ap (λ x. 2 ^ m * x) (pow-zero 2) ∙ (omega arith) ∙ ap (λ x. 2 ^ x) (sym flat)
pow_sum m (suc n) =
    let longer : suc (m + n) ≡ m + suc n = omega arith in
    ap (λ x. 2 ^ m * x) (pow-suc 2 n)
    ∙ sym (mul_assoc (2 ^ m) (2 ^ n) 2)
    ∙ ap (λ x. x * 2) (pow_sum m n)
    ∙ sym (pow-suc 2 (m + n))
    ∙ ap (λ x. 2 ^ x) longer

pow_whole : (n : ℕ) → n ≤ 32 → 2 ^ (32 - n) * 2 ^ n ≡ 2 ^ 32
pow_whole n h = let all : 32 - n + n ≡ 32 = omega arith in pow_sum (32 - n) n ∙ ap (λ x. 2 ^ x) all

-- A number with `n` ones and nothing after them.
Ones-mask : (v n : ℕ) → n ≤ 32 → Ones v n → v * 2 ^ n % 2 ^ 32 ≡ 0 → v ≡ mask n
Ones-mask v n h ones rest =
    let a = 2 ^ (32 - n) in
    let b = 2 ^ n in
    let pos = pow_pos n in
    let room = pow_pos (32 - n) in
    let split : (b - 1) * a + v % a ≡ v = ap (λ x. x * a + v % a) (sym ones) ∙ div-add-mod' v a in
    let whole = pow_whole n h in
    let small = mod-lt v room in
    let empty = no_rest a b (v % a) whole pos small (ap (λ x. x * b % 2 ^ 32) split ∙ rest) in
    let size : (b - 1) * a + a ≡ b * a = sym (suc-mul (b - 1) a) ∙ ap (λ x. x * a) (omega arith) in
    let same = mul_comm a b in omega arith

-- `prefix_from_mask` accepts exactly the masks, of 32 bits, that are ones and then zeros, and returns
-- how many ones.
pub prefix_from_mask_iff :
    (v n : ℕ)
    → v < 2 ^ 32
    → (prefix_from_mask v ≡ some n) ↔ ((n ≤ 32) × (v ≡ 2 ^ 32 - 2 ^ (32 - n)))
unfolding prefix_from_mask
prefix_from_mask_iff v n h =
    let m = leading_ones 32 v 0 in
    let (low, ones) = leading_ones-Ones 32 v 0 refl (omega arith) in
    (
      λ e. elim (Bool-cases (v * 2 ^ m % 2 ^ 32 == 0)) [
        | inl k ↦
            let found : m ≡ n = some_inj (rw k at e) in
            subst (λ x. (x ≤ 32) × (v ≡ 2 ^ 32 - 2 ^ (32 - x))) found
              (low, Ones-mask v m low ones ((==_iff (v * 2 ^ m % 2 ^ 32) 0).0 k))
        | inr k ↦ let no : none ≡ some n = rw k at e in cc
      ],
      λ (l, e). ap prefix_from_mask e ∙ prefix_from_mask-mask n l,
    )
