-- ===== src/Jsonv/Refined.antt =====
-- internal/jsonv/jsonv.go: the lists of an `Object`, and the places of its keys.
use pages.Common.{
  Bool, Bool-cases, List, Option, [], ap, arith, false, if◌then◌else◌, inl, inr, length, none, refl,
  some, suc, sym, text_eq, text_eq_iff, true, zero, ℕ, ◌++◌, ◌+◌, ◌-◌, ◌<◌, ◌∙◌, ◌∷◌, ◌≡◌, ◌⊎◌,
}
use pages.Jsonv.Entries.{Entries, is_array_index, put, remove, value_at}
use pages.Jsonv.Object.{erase_elem, first_or, get_elem?, index_from, position, set_elem, zipped}
use pages.Jsonv.Utf8.{Bytes}

-- No key stands twice.
abbrev pub NoDup : List Bytes → Type 0
NoDup [] = Unit
NoDup (k ∷ ks) = (position k ks ≡ none) × NoDup ks

abbrev pub count_indices : List Bytes → ℕ
count_indices [] = 0
count_indices (k ∷ ks) = (if is_array_index k then 1 else 0) + count_indices ks

abbrev pub or_at : Option ℕ → Bool → ℕ → Option ℕ
or_at (some i) b n = some i
or_at none true n = some n
or_at none false n = none

pub position-append :
    (j k : Bytes) (ks : List Bytes)
    → position j (ks ++ k ∷ []) ≡ or_at (position j ks) (text_eq k j) (length ks)
unfolding position
position-append j k [] = head (text_eq k j)
  where
    head : (b : Bool) → first_or b none ≡ or_at none b 0
    head true = refl
    head false = refl
position-append j k (i ∷ ks) =
    rw (position-append j k ks) (step (text_eq i j) (position j ks) (text_eq k j))
  where
    step :
        (b : Bool) (o : Option ℕ) (c : Bool)
        → first_or b (or_at o c (length ks)) ≡ or_at (first_or b o) c (suc (length ks))
    step true o c = refl
    step false none true = refl
    step false none false = refl
    step false (some n) c = refl

pub value_at-put {ℓ} :
    {V : Type ℓ} (j k : Bytes) (v : V) (es : Entries V)
    → value_at j (put k v es) ≡ (if text_eq k j then some v else value_at j es)
unfolding value_at put
value_at-put j k v [] = refl
value_at-put j k v ((i, u) ∷ es) =
    ground (arith, text_eq_iff k j, text_eq_iff i k, text_eq_iff i j, value_at-put j k v es)

-- What `reindex` stores: the place of each key.
abbrev shifted : ℕ → Option ℕ → Option ℕ → Option ℕ
shifted i (some n) other = some (i + n)
shifted i none other = other

index_from-shifted :
    (j : Bytes) (i : ℕ) (ks : List Bytes) (m : Entries ℕ)
    → NoDup ks
    → value_at j (index_from i ks m) ≡ shifted i (position j ks) (value_at j m)
unfolding index_from position
index_from-shifted j i [] m h = refl
index_from-shifted j i (k ∷ ks) m h =
    index_from-shifted j (suc i) ks (put k i m) h.1
    ∙ (rw (value_at-put j k i m) (elim (Bool-cases (text_eq k j)) [
      | inl e ↦
          let same : k ≡ j = (text_eq_iff k j).0 e in
          let gone : position j ks ≡ none = rw (sym same) h.0 in
          let first : i + 0 ≡ i = omega arith in rw (e, gone, first) refl
      | inr e ↦ rw e (later (position j ks))
    ]))
  where
    later :
        (o : Option ℕ)
        → shifted (suc i) o (value_at j m) ≡ shifted i (first_or false o) (value_at j m)
    later none = refl
    later (some n) = ap some (omega arith)

pub index_from-position :
    (j : Bytes) (ks : List Bytes) → NoDup ks → value_at j (index_from 0 ks []) ≡ position j ks
index_from-position j ks h = index_from-shifted j 0 ks [] h ∙ unshifted (position j ks)
  where
    unshifted : (o : Option ℕ) → shifted 0 o (value_at {V = ℕ} j []) ≡ o
    unshifted none = unfold value_at in refl
    unshifted (some n) = ap some (omega arith)

-- What a found place says of the head of the list.
abbrev pub Found : Bool → ℕ → Option ℕ → Type 0
Found b i o = ((b ≡ true) × (i ≡ 0)) ⊎ ((n : ℕ) × (b ≡ false) × (i ≡ suc n) × (o ≡ some n))

pub found : (b : Bool) (o : Option ℕ) (i : ℕ) → first_or b o ≡ some i → Found b i o
found true o i e = inl (refl, cc)
found false none i e = absurd_none e
  where
    absurd_none : (let o : Option ℕ = none in o) ≡ some i → Found false i none
    absurd_none e = cc
found false (some n) i e = inr (n, refl, cc, refl)

-- A key that is not there.
pub missing : (b : Bool) (o : Option ℕ) → first_or b o ≡ none → (b ≡ false) × (o ≡ none)
missing true o e = cc
missing false none e = (refl, refl)
missing false (some n) e = cc

module _ {ℓ} {V : Type ℓ} where
  abbrev pub fetched : List V → Option ℕ → Option V
  fetched vs none = none
  fetched vs (some i) = get_elem? vs i

  pub fetched-position :
      (k : Bytes) (ks : List Bytes) (vs : List V)
      → length ks ≡ length vs
      → fetched vs (position k ks) ≡ value_at k (zipped ks vs)
  unfolding position value_at
  fetched-position k [] vs h = refl
  fetched-position k (j ∷ ks) [] h = absurd (omega arith)
  fetched-position k (j ∷ ks) (v ∷ vs) h =
      rw (sym (fetched-position k ks vs (omega arith))) (step (text_eq j k) (position k ks))
    where
      step :
          (b : Bool) (o : Option ℕ)
          → fetched (v ∷ vs) (first_or b o) ≡ (if b then some v else fetched vs o)
      step true o = refl
      step false none = refl
      step false (some i) = refl

  pub zipped-set_elem :
      (k : Bytes) (v : V) (ks : List Bytes) (vs : List V) (i : ℕ)
      → length ks ≡ length vs
      → position k ks ≡ some i
      → zipped ks (set_elem vs i v) ≡ put k v (zipped ks vs)
  unfolding position put
  zipped-set_elem k v [] vs i h e = cc
  zipped-set_elem k v (j ∷ ks) [] i h e = absurd (omega arith)
  zipped-set_elem k v (j ∷ ks) (u ∷ vs) i h e = elim (found (text_eq j k) (position k ks) i e) [
    | inl (b, z) ↦ rw (b, z) refl
    | inr (n, b, z, o) ↦ rw (b, z) (ap (◌∷◌ (j, u)) (zipped-set_elem k v ks vs n (omega arith) o))
  ]

  pub zipped-erase_elem :
      (k : Bytes) (ks : List Bytes) (vs : List V) (i : ℕ)
      → length ks ≡ length vs
      → position k ks ≡ some i
      → (zipped (erase_elem ks i) (erase_elem vs i) ≡ remove k (zipped ks vs))
        × (length (erase_elem ks i) ≡ length (erase_elem vs i))
  unfolding position remove
  zipped-erase_elem k [] vs i h e = cc
  zipped-erase_elem k (j ∷ ks) [] i h e = absurd (omega arith)
  zipped-erase_elem k (j ∷ ks) (u ∷ vs) i h e = elim (found (text_eq j k) (position k ks) i e) [
    | inl (b, z) ↦ rw (b, z) (refl, omega arith)
    | inr (n, b, z, o) ↦
        let (pairs, same) = zipped-erase_elem k ks vs n (omega arith) o in
        rw (b, z) (ap (◌∷◌ (j, u)) pairs, ap suc same)
  ]

  pub zipped-missing :
      (k : Bytes) (v : V) (ks : List Bytes) (vs : List V)
      → length ks ≡ length vs
      → position k ks ≡ none
      → zipped (ks ++ k ∷ []) (vs ++ v ∷ []) ≡ put k v (zipped ks vs)
  unfolding position put
  zipped-missing k v [] [] h e = refl
  zipped-missing k v [] (u ∷ vs) h e = absurd (omega arith)
  zipped-missing k v (j ∷ ks) [] h e = absurd (omega arith)
  zipped-missing k v (j ∷ ks) (u ∷ vs) h e =
      let (b, o) = missing (text_eq j k) (position k ks) e in
      rw b (ap (◌∷◌ (j, u)) (zipped-missing k v ks vs (omega arith) o))

  pub remove-missing :
      (k : Bytes) (ks : List Bytes) (vs : List V)
      → position k ks ≡ none
      → remove k (zipped ks vs) ≡ zipped ks vs
  unfolding position remove
  remove-missing k [] vs e = refl
  remove-missing k (j ∷ ks) [] e = refl
  remove-missing k (j ∷ ks) (u ∷ vs) e =
      let (b, o) = missing (text_eq j k) (position k ks) e in
      rw b (ap (◌∷◌ (j, u)) (remove-missing k ks vs o))

pub NoDup-append :
    (k : Bytes) (ks : List Bytes) → NoDup ks → position k ks ≡ none → NoDup (ks ++ k ∷ [])
NoDup-append k [] h e = (unfold position in refl, tt)
NoDup-append k (j ∷ ks) h e =
    let (apart, gone) = missing (text_eq j k) (position k ks) (unfold position in e) in
    let other : text_eq k j ≡ false = ground (arith, text_eq_iff j k, text_eq_iff k j) in
    (rw (position-append j k ks, h.0, other) refl, NoDup-append k ks h.1 gone)

pub position-erase_elem :
    (j : Bytes) (ks : List Bytes) (i : ℕ)
    → position j ks ≡ none
    → position j (erase_elem ks i) ≡ none
unfolding position
position-erase_elem j [] i e = refl
position-erase_elem j (c ∷ ks) zero e = (missing (text_eq c j) (position j ks) e).1
position-erase_elem j (c ∷ ks) (suc i) e =
    let (apart, gone) = missing (text_eq c j) (position j ks) e in
    rw (apart, position-erase_elem j ks i gone) refl

pub NoDup-erase_elem : (ks : List Bytes) (i : ℕ) → NoDup ks → NoDup (erase_elem ks i)
NoDup-erase_elem [] i h = tt
NoDup-erase_elem (k ∷ ks) zero h = h.1
NoDup-erase_elem (k ∷ ks) (suc i) h = (position-erase_elem k ks i h.0, NoDup-erase_elem ks i h.1)

pub count_indices-append :
    (k : Bytes) (ks : List Bytes)
    → count_indices (ks ++ k ∷ [])
      ≡ (if is_array_index k then suc (count_indices ks) else count_indices ks)
count_indices-append k [] = ground arith
count_indices-append k (j ∷ ks) = let ih = count_indices-append k ks in ground arith

count_indices-found :
    (k : Bytes) (ks : List Bytes) (i : ℕ)
    → position k ks ≡ some i
    → is_array_index k ≡ true
    → 0 < count_indices ks
unfolding position
count_indices-found k [] i e h = cc
count_indices-found k (j ∷ ks) i e h = elim (found (text_eq j k) (position k ks) i e) [
  | inl (b, z) ↦ let same : j ≡ k = (text_eq_iff j k).0 b in rw (same, h) (omega arith)
  | inr (n, b, z, o) ↦ let ih = count_indices-found k ks n o h in omega arith
]

pub count_indices-erase_elem :
    (k : Bytes) (ks : List Bytes) (i : ℕ)
    → position k ks ≡ some i
    → count_indices (erase_elem ks i)
      ≡ (if is_array_index k then count_indices ks - 1 else count_indices ks)
unfolding position
count_indices-erase_elem k [] i e = cc
count_indices-erase_elem k (j ∷ ks) i e = elim (found (text_eq j k) (position k ks) i e) [
  | inl (b, z) ↦ let same : j ≡ k = (text_eq_iff j k).0 b in rw (z, same) (ground arith)
  | inr (n, b, z, o) ↦
      let counted = count_indices-found k ks n o in
      rw z (ground (arith, count_indices-erase_elem k ks n o, counted))
]
