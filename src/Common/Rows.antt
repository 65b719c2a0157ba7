-- ===== src/Common/Rows.antt =====
-- The laws of tables whose keys fall along the list.
use mathlib.Core.Option
use mathlib.Core.Path.{subst}
use mathlib.Core.Logic.{inl, inr}
use pages.Common.Table.{find, modify, select, Below}
use pages.Common.{
  ℕ, ◌≤◌, ◌<◌, ◌≡◌, refl, sym, ◌≢◌, Bool, true, false, List, [], ◌∷◌, none, some, arith, ◌==◌,
  ==_iff, if◌then◌else◌, Bool-cases, All,
}

pub some_inj : {A : Type 0} {a b : A} → some a ≡ some b → a ≡ b
some_inj h = cc

module _ {A : Type 0} (key : A → ℕ) where
  pub find-key : (k : ℕ) (xs : List A) (x : A) → find key k xs ≡ some x → key x ≡ k
  unfolding find
  find-key k [] x h = cc
  find-key k (y ∷ xs) x h = ground (arith, find-key k xs x)

  pub find-Below : (n k : ℕ) (xs : List A) → Below key n xs → n ≤ k → find key k xs ≡ none
  unfolding find
  find-Below n k [] b h = refl
  find-Below n k (x ∷ xs) b h = ground (arith, find-Below (key x) k xs b.1)

  pub find-lt : (n k : ℕ) (xs : List A) (x : A) → Below key n xs → find key k xs ≡ some x → k < n
  unfolding find
  find-lt n k [] x b h = cc
  find-lt n k (y ∷ xs) x b h = ground (arith, find-lt (key y) k xs x b.1)

  pub find-modify :
      (f : A → A)
      → ((x : A) → key (f x) ≡ key x)
      → (k j : ℕ) (xs : List A)
      → find key k (modify key j f xs)
        ≡ (if k == j then Option.map f (find key k xs) else find key k xs)
  unfolding find modify
  find-modify f keeps k j [] = ground arith
  find-modify f keeps k j (x ∷ xs) = ground (arith, keeps x, find-modify f keeps k j xs)

  pub find-modify_self :
      (f : A → A)
      → ((x : A) → key (f x) ≡ key x)
      → (k : ℕ) (xs : List A) (x : A) → find key k xs ≡ some x
      → find key k (modify key k f xs) ≡ some (f x)
  unfolding find modify
  find-modify_self f keeps k [] x h = cc
  find-modify_self f keeps k (y ∷ xs) x h = ground (arith, keeps y, find-modify_self f keeps k xs x)

  pub find-modify_ne :
      (f : A → A)
      → ((x : A) → key (f x) ≡ key x)
      → (k j : ℕ) (xs : List A) → k ≢ j
      → find key k (modify key j f xs) ≡ find key k xs
  unfolding find modify
  find-modify_ne f keeps k j [] h = refl
  find-modify_ne f keeps k j (x ∷ xs) h = ground (arith, keeps x, find-modify_ne f keeps k j xs h)

  pub modify-Below :
      (f : A → A)
      → ((x : A) → key (f x) ≡ key x)
      → (n j : ℕ) (xs : List A) → Below key n xs
      → Below key n (modify key j f xs)
  unfolding modify
  modify-Below f keeps n j [] b = tt
  modify-Below f keeps n j (x ∷ xs) b = elim (Bool-cases (key x == j)) [
    | inl here ↦ rw here (
      rw (keeps x) b.0,
      subst (λ m. Below key m (modify key j f xs)) (sym (keeps x))
          (modify-Below f keeps (key x) j xs b.1),
    )
    | inr there ↦ rw there (b.0, modify-Below f keeps (key x) j xs b.1)
  ]

  -- A row that a query selects is the row of its key.
  pub select-find :
      (p : A → Bool) (n : ℕ) (xs : List A) (x : A)
      → Below key n xs
      → select p xs ≡ some x
      → find key (key x) xs ≡ some x
  unfolding select find
  select-find p n [] x b h = cc
  select-find p n (y ∷ xs) x b h =
      ground (arith, select-find p (key y) xs x b.1, find-lt (key y) (key x) xs x b.1)

  -- An update keeps a property of all rows that it keeps at the rows of its key.
  pub All-modify {κ μ} :
      {P : A → Type κ} {Q : A → Type μ} (f : A → A) (j : ℕ) (xs : List A)
      → ((x : A) → P x → Q x)
      → ((x : A) → P x → key x ≡ j → Q (f x))
      → All P xs
      → All Q (modify key j f xs)
  unfolding modify
  All-modify f j [] keep change h = tt
  All-modify f j (x ∷ xs) keep change h = elim (Bool-cases (key x == j)) [
    | inl here ↦
        rw here (change x h.0 ((==_iff (key x) j).0 here), All-modify f j xs keep change h.1)
    | inr there ↦ rw there (keep x h.0, All-modify f j xs keep change h.1)
  ]

  pub All-find {κ} :
      (P : A → Type κ) (k : ℕ) (xs : List A) (x : A) → All P xs → find key k xs ≡ some x → P x
  unfolding find
  All-find P k [] x h e = cc
  All-find P k (y ∷ xs) x h e = elim (Bool-cases (key y == k)) [
    | inl here ↦ subst P (some_inj (rw here at e)) h.0
    | inr there ↦ All-find P k xs x h.1 (rw there at e)
  ]

  -- One row for each key.
  pub key_unique :
      (n k : ℕ) (xs : List A) (x : A)
      → Below key n xs
      → find key k xs ≡ some x
      → All (λ y. key y ≡ k → y ≡ x) xs
  unfolding find
  key_unique n k [] x b h = tt
  key_unique n k (y ∷ xs) x b h = elim (Bool-cases (key y == k)) [
    | inl here ↦
        let e : y ≡ x = some_inj (rw here at h) in
        let at_k = (==_iff (key y) k).0 here in (λ _. e, All-below k (key y) xs x b.1 (omega arith))
    | inr there ↦
        (λ e. absurd (not_there y k e there), key_unique (key y) k xs x b.1 (rw there at h))
  ]
    where
      not_there : (z : A) (j : ℕ) → key z ≡ j → (key z == j) ≡ false → ⊥
      not_there z j e f = ground arith

      All-below :
          (j m : ℕ) (zs : List A) (z : A) → Below key m zs → m ≤ j → All (λ w. key w ≡ j → w ≡ z) zs
      All-below j m [] z b le = tt
      All-below j m (w ∷ zs) z b le =
          (λ e. absurd (omega arith), All-below j (key w) zs z b.1 (omega arith))

pub select-holds :
    {A : Type 0} (p : A → Bool) (xs : List A) (x : A) → select p xs ≡ some x → p x ≡ true
unfolding select
select-holds p [] x h = cc
select-holds p (y ∷ xs) x h = elim (Bool-cases (p y)) [
  | inl hit ↦ subst (λ z. p z ≡ true) (some_inj (rw hit at h)) hit
  | inr miss ↦ select-holds p xs x (rw miss at h)
]

pub All-zip {κ μ} :
    {A : Type 0} (P : A → Type κ) (Q : A → Type μ) (xs : List A)
    → All P xs
    → All Q xs
    → All (λ x. P x × Q x) xs
All-zip P Q [] p q = tt
All-zip P Q (x ∷ xs) p q = ((p.0, q.0), All-zip P Q xs p.1 q.1)
