-- ===== src/Patch/Pieces.antt =====
-- A document is its pieces between the matches: what a count and a replacement come to.
use pages.Common.{
  Bool-cases, Text, [], ap, arith, drop, inl, inr, length, refl, suc, true, zero, ℕ, ◌++◌, ◌-◌, ◌∙◌,
  ◌∷◌, ◌≡◌,
}
use pages.Patch.Strings.{count_from, is_prefix, join, replace_from, split_from}

-- The rest of the match that the first `skip` characters belong to.
prefix-drop :
    (needle : Text) (s : Text) → is_prefix needle s ≡ true → needle ++ drop (length needle) s ≡ s
unfolding is_prefix
prefix-drop [] s h = refl
prefix-drop (n ∷ ns) [] h = cc
prefix-drop (n ∷ ns) (x ∷ xs) h = ground (arith, prefix-drop ns xs)

-- A document is its pieces with the needle between them.
pub join-split :
    (n : ℕ) (ns : Text) (skip : ℕ) (s : Text)
    → join (n ∷ ns) (split_from (n ∷ ns) skip s) ≡ drop skip s
unfolding split_from
join-split n ns zero [] = refl
join-split n ns (suc skip) [] = refl
join-split n ns (suc skip) (x ∷ xs) = join-split n ns skip xs
join-split n ns zero (x ∷ xs) = elim (Bool-cases (is_prefix (n ∷ ns) (x ∷ xs))) [
  | inl hit ↦
      rw (hit, split_from)
        (let e : suc (length ns) - 1 ≡ length ns = omega arith in
          rw e (
            ap (λ t. (n ∷ ns) ++ t) (join-split n ns (length ns) xs)
            ∙ prefix-drop (n ∷ ns) (x ∷ xs) hit))
  | inr miss ↦ rw (miss, split_from) (ap (◌∷◌ x) (join-split n ns zero xs))
]

-- Replacing is joining the pieces by the replacement.
pub replace_from-join :
    (needle new : Text) (skip : ℕ) (s : Text)
    → replace_from needle new skip s ≡ join new (split_from needle skip s)
unfolding split_from replace_from
replace_from-join needle new zero [] = refl
replace_from-join needle new (suc skip) [] = refl
replace_from-join needle new (suc skip) (x ∷ xs) = replace_from-join needle new skip xs
replace_from-join needle new zero (x ∷ xs) = elim (Bool-cases (is_prefix needle (x ∷ xs))) [
  | inl hit ↦
      rw (hit, split_from, replace_from)
        (ap (λ t. new ++ t) (replace_from-join needle new (length needle - 1) xs))
  | inr miss ↦
      rw (miss, split_from, replace_from) (ap (◌∷◌ x) (replace_from-join needle new zero xs))
]

pub count_from-length :
    (needle : Text) (skip : ℕ) (s : Text)
    → count_from needle skip s ≡ length (split_from needle skip s).1
unfolding split_from count_from
count_from-length needle zero [] = refl
count_from-length needle (suc skip) [] = refl
count_from-length needle (suc skip) (x ∷ xs) = count_from-length needle skip xs
count_from-length needle zero (x ∷ xs) = elim (Bool-cases (is_prefix needle (x ∷ xs))) [
  | inl hit ↦
      rw (hit, split_from, count_from) (ap suc (count_from-length needle (length needle - 1) xs))
  | inr miss ↦ rw (miss, split_from, count_from) (count_from-length needle zero xs)
]
