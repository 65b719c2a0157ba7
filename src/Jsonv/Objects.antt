-- ===== src/Jsonv/Objects.antt =====
-- internal/jsonv/jsonv.go: an `Object` is its entries in order, whatever its index and its counter.
use pages.Common.{
  Bool-cases, List, Option, Option-cases, [], ap, arith, false, if◌then◌else◌, inl, inr, length,
  length-append, ltb, none, refl, some, suc, sym, text_eq, text_eq_iff, zero, ℕ, ◌++◌, ◌-◌, ◌∙◌,
  ◌∷◌, ◌≡◌, ◌⊎◌,
}
use pages.Jsonv.Entries.{Entries, is_array_index, put, remove, value_at}
use pages.Jsonv.Object.{
  Object, delete, erase_elem, get, get_elem?, index_added, index_again, new_object, place_of,
  position, set, set_elem, zipped,
}
use pages.Jsonv.Refined.{
  NoDup, NoDup-append, NoDup-erase_elem, count_indices, count_indices-append,
  count_indices-erase_elem, fetched, fetched-position, found, index_from-position, or_at,
  position-append, remove-missing, value_at-put, zipped-erase_elem, zipped-missing, zipped-set_elem,
}
use pages.Jsonv.Utf8.{Bytes}

abbrev pub IsIndex : Option (Entries ℕ) → List Bytes → Type 0
IsIndex none ks = Unit
IsIndex (some m) ks = (j : Bytes) → value_at j m ≡ position j ks

index_added-IsIndex :
    (k : Bytes) (ks : List Bytes) (m : Option (Entries ℕ))
    → IsIndex m ks
    → NoDup ks
    → position k ks ≡ none
    → IsIndex (index_added k (ks ++ k ∷ []) m) (ks ++ k ∷ [])
unfolding index_added
index_added-IsIndex k ks none h n e = elim (Bool-cases (ltb 8 (length (ks ++ k ∷ [])))) [
  | inl more ↦ rw more (λ j. index_from-position j (ks ++ k ∷ []) (NoDup-append k ks n e))
  | inr few ↦ rw few tt
]
index_added-IsIndex k ks (some m) h n e = λ j.
    rw (value_at-put j k (length (ks ++ k ∷ []) - 1) m, position-append j k ks, h j)
      (elim (Bool-cases (text_eq k j)) [
        | inl b ↦
            let same : k ≡ j = (text_eq_iff k j).0 b in
            let gone : position j ks ≡ none = rw (sym same) e in
            let last : length (ks ++ k ∷ []) - 1 ≡ length ks =
              omega (arith, length-append ks (k ∷ [])) in
            rw (b, gone, last) refl
        | inr b ↦ rw b (other (position j ks))
      ])
  where
    other : (o : Option ℕ) → o ≡ or_at o false (length ks)
    other none = refl
    other (some i) = refl

index_again-IsIndex :
    (ks : List Bytes) (m : Option (Entries ℕ)) → NoDup ks → IsIndex (index_again ks m) ks
unfolding index_again
index_again-IsIndex ks none n = tt
index_again-IsIndex ks (some m) n = λ j. index_from-position j ks n

length-set_elem {ℓ} :
    {V : Type ℓ} (vs : List V) (i : ℕ) (v : V) → length (set_elem vs i v) ≡ length vs
length-set_elem [] i v = refl
length-set_elem (u ∷ vs) zero v = refl
length-set_elem (u ∷ vs) (suc i) v = ap suc (length-set_elem vs i v)

module _ {ℓ} {V : Type ℓ} where
  -- The lists are as long as each other, no key stands twice, the index has the places of the keys,
  -- and the counter counts the array indices.
  pub record IsSound (o : Object V) : Type ℓ where
    pub same_length : length o.keys ≡ length o.vals
    pub no_dup : NoDup o.keys
    pub indexed : IsIndex o.index o.keys
    pub counted : o.nidx ≡ count_indices o.keys

  abbrev pub entries : Object V → Entries V
  entries o = zipped o.keys o.vals

  place_of-position :
      (o : Object V) (k : Bytes) → IsIndex o.index o.keys → place_of o k ≡ position k o.keys
  unfolding place_of
  place_of-position o k h = go o.index h
    where
      go :
          (m : Option (Entries ℕ))
          → IsIndex m o.keys
          → elim m as (λ _. Option ℕ) [ some m' ↦ value_at k m' | none ↦ position k o.keys ]
            ≡ position k o.keys
      go none h = refl
      go (some m) h = h k

  pub new_object-IsSound : IsSound (new_object {V = V})
  unfolding new_object
  new_object-IsSound = record { same_length = refl; no_dup = tt; indexed = tt; counted = refl }

  entries-cases :
      (o : Object V) (k : Bytes)
      → IsSound o
      → (place_of o k ≡ none × position k o.keys ≡ none)
        ⊎ ((i : ℕ) × (place_of o k ≡ some i) × (position k o.keys ≡ some i))
  entries-cases o k h =
      let same = place_of-position o k h.indexed in
      elim (Option-cases (position k o.keys)) [
        | inl e ↦ inl (same ∙ e, e)
        | inr (i, e) ↦ inr (i, same ∙ e, e)
      ]

  set-found :
      (o : Object V) (k : Bytes) (v : V) (i : ℕ)
      → place_of o k ≡ some i
      → set o k v ≡ record o { vals = set_elem o.vals i v }
  unfolding set
  set-found o k v i e = rw (e, set) refl

  abbrev added : Object V → Bytes → V → Object V
  added o k v = record {
    keys = o.keys ++ k ∷ [];
    vals = o.vals ++ v ∷ [];
    index = index_added k (o.keys ++ k ∷ []) o.index;
    nidx = if is_array_index k then suc o.nidx else o.nidx;
  }

  set-missing : (o : Object V) (k : Bytes) (v : V) → place_of o k ≡ none → set o k v ≡ added o k v
  unfolding set
  set-missing o k v e = rw (e, set) refl

  abbrev removed : Object V → Bytes → ℕ → Object V
  removed o k i = record {
    keys = erase_elem o.keys i;
    vals = erase_elem o.vals i;
    index = index_again (erase_elem o.keys i) o.index;
    nidx = if is_array_index k then o.nidx - 1 else o.nidx;
  }

  delete-found :
      (o : Object V) (k : Bytes) (i : ℕ) → place_of o k ≡ some i → delete o k ≡ removed o k i
  unfolding delete
  delete-found o k i e = rw (e, delete) refl

  delete-missing : (o : Object V) (k : Bytes) → place_of o k ≡ none → delete o k ≡ o
  unfolding delete
  delete-missing o k e = rw (e, delete) refl

  -- `Set` keeps an object sound and puts the value into its entries.
  pub set-IsSound :
      (o : Object V) (k : Bytes) (v : V)
      → IsSound o
      → IsSound (set o k v) × (entries (set o k v) ≡ put k v (entries o))
  set-IsSound o k v h = elim (entries-cases o k h) [
    | inl (gone, e) ↦ rw (set-missing o k v gone) (
      record {
        same_length =
            omega
              (arith, length-append o.keys (k ∷ []), length-append o.vals (v ∷ []), h.same_length);
        no_dup = NoDup-append k o.keys h.no_dup e;
        indexed = index_added-IsIndex k o.keys o.index h.indexed h.no_dup e;
        counted = rw (count_indices-append k o.keys, h.counted) refl;
      },
      zipped-missing k v o.keys o.vals h.same_length e,
    )
    | inr (i, found, e) ↦ rw (set-found o k v i found) (
      record {
        same_length = h.same_length ∙ sym (length-set_elem o.vals i v);
        no_dup = h.no_dup;
        indexed = h.indexed;
        counted = h.counted;
      },
      zipped-set_elem k v o.keys o.vals i h.same_length e,
    )
  ]

  -- `Delete` keeps an object sound and takes the key out of its entries.
  pub delete-IsSound :
      (o : Object V) (k : Bytes)
      → IsSound o
      → IsSound (delete o k) × (entries (delete o k) ≡ remove k (entries o))
  delete-IsSound o k h = elim (entries-cases o k h) [
    | inl (gone, e) ↦ rw (delete-missing o k gone) (h, sym (remove-missing k o.keys o.vals e))
    | inr (i, found, e) ↦
        let (pairs, same) = zipped-erase_elem k o.keys o.vals i h.same_length e in
        rw (delete-found o k i found) (
          record {
            same_length = same;
            no_dup = NoDup-erase_elem o.keys i h.no_dup;
            indexed =
                index_again-IsIndex (erase_elem o.keys i) o.index
                  (NoDup-erase_elem o.keys i h.no_dup);
            counted = rw (count_indices-erase_elem k o.keys i e, h.counted) refl;
          },
          pairs,
        )
  ]

  get-fetched : (o : Object V) (k : Bytes) → get o k ≡ fetched o.vals (place_of o k)
  unfolding get
  get-fetched o k = go (place_of o k)
    where
      go :
          (p : Option ℕ)
          → elim p as (λ _. Option V) [ none ↦ none | some i ↦ get_elem? o.vals i ]
            ≡ fetched o.vals p
      go none = refl
      go (some i) = refl

  -- `Get` looks the key up in the entries.
  pub get-value_at : (o : Object V) (k : Bytes) → IsSound o → get o k ≡ value_at k (entries o)
  get-value_at o k h =
      get-fetched o k
      ∙ (ap (fetched o.vals) (place_of-position o k h.indexed)
          ∙ fetched-position k o.keys o.vals h.same_length)
