-- ===== src/Jsonv/Orders.antt =====
-- internal/jsonv/jsonv.go: the order in which an object is written, and objects built in that order.
use pages.Common.{
  All, All-map, Bool-cases, [], ap, false, inl, inr, ltb, refl, sym, text_eq, text_eq_iff, true,
  ◌++◌, ◌∙◌, ◌∷◌, ◌≡◌, ◌≢◌,
}
use pages.Common.Strings.{decimal_value}
use pages.Jsonv.Entries.{
  Entries, enumerate, index_entries, insert_entry, is_array_index, other_entries, put, sort_entries,
}
use pages.Jsonv.Utf8.{Bytes}

module _ {ℓ} {V : Type ℓ} where
  -- No key stands twice.
  abbrev pub Absent : Bytes → Entries V → Type 0
  Absent k es = All (λ e. k ≢ e.0) es

  abbrev pub DistinctKeys : Entries V → Type 0
  DistinctKeys [] = Unit
  DistinctKeys ((k, v) ∷ es) = Absent k es × DistinctKeys es

module _ {ℓ κ} {V : Type ℓ} (P : Bytes × V → Type κ) where
  pub All-append : (es ds : Entries V) → All P es → All P ds → All P (es ++ ds)
  All-append [] ds h k = k
  All-append (e ∷ es) ds h k = (h.0, All-append es ds h.1 k)

  pub All-insert_entry :
      (e : Bytes × V) (es : Entries V) → P e → All P es → All P (insert_entry e es)
  unfolding insert_entry
  All-insert_entry e [] p h = (p, tt)
  All-insert_entry e (d ∷ es) p h =
      elim (Bool-cases (ltb (decimal_value 0 d.0) (decimal_value 0 e.0))) [
        | inl less ↦ rw less (h.0, All-insert_entry e es p h.1)
        | inr more ↦ rw more (p, h)
      ]

  pub All-sort_entries : (es : Entries V) → All P es → All P (sort_entries es)
  unfolding sort_entries
  All-sort_entries [] h = tt
  All-sort_entries (e ∷ es) h = All-insert_entry e (sort_entries es) h.0 (All-sort_entries es h.1)

  All-index_entries : (es : Entries V) → All P es → All P (index_entries es)
  unfolding index_entries
  All-index_entries [] h = tt
  All-index_entries ((k, v) ∷ es) h = elim (Bool-cases (is_array_index k)) [
    | inl e ↦ rw e (h.0, All-index_entries es h.1)
    | inr e ↦ rw e (All-index_entries es h.1)
  ]

  All-other_entries : (es : Entries V) → All P es → All P (other_entries es)
  unfolding other_entries
  All-other_entries [] h = tt
  All-other_entries ((k, v) ∷ es) h = elim (Bool-cases (is_array_index k)) [
    | inl e ↦ rw e (All-other_entries es h.1)
    | inr e ↦ rw e (h.0, All-other_entries es h.1)
  ]

  -- Whatever holds of all entries holds of all in the order of enumeration.
  pub All-enumerate : (es : Entries V) → All P es → All P (enumerate es)
  unfolding enumerate
  All-enumerate es h =
      All-append (sort_entries (index_entries es)) (other_entries es)
        (All-sort_entries (index_entries es) (All-index_entries es h)) (All-other_entries es h)

module _ {ℓ} {V : Type ℓ} where
  DistinctKeys-insert_entry :
      (k : Bytes) (v : V) (es : Entries V)
      → Absent k es
      → DistinctKeys es
      → DistinctKeys (insert_entry (k, v) es)
  unfolding insert_entry
  DistinctKeys-insert_entry k v [] a h = (tt, tt)
  DistinctKeys-insert_entry k v ((j, w) ∷ es) a h =
      elim (Bool-cases (ltb (decimal_value 0 j) (decimal_value 0 k))) [
        | inl less ↦ rw less (
          All-insert_entry (λ e. j ≢ e.0) (k, v) es (λ p. a.0 (sym p)) h.0,
          DistinctKeys-insert_entry k v es a.1 h.1,
        )
        | inr more ↦ rw more (a, h)
      ]

  DistinctKeys-sort_entries : (es : Entries V) → DistinctKeys es → DistinctKeys (sort_entries es)
  unfolding sort_entries
  DistinctKeys-sort_entries [] h = tt
  DistinctKeys-sort_entries ((k, v) ∷ es) h =
      DistinctKeys-insert_entry k v (sort_entries es) (All-sort_entries (λ e. k ≢ e.0) es h.0)
        (DistinctKeys-sort_entries es h.1)

  -- The entries of one kind of key, before those of the other.
  DistinctKeys-append :
      (es ds : Entries V)
      → DistinctKeys es
      → DistinctKeys ds
      → All (λ e. is_array_index e.0 ≡ true) es
      → All (λ e. is_array_index e.0 ≡ false) ds
      → DistinctKeys (es ++ ds)
  DistinctKeys-append [] ds h g a b = g
  DistinctKeys-append ((k, v) ∷ es) ds h g a b = (
    All-append (λ e. k ≢ e.0) es ds h.0
        (All-map ds (λ e p q. true_is_not_false (sym a.0 ∙ (ap is_array_index q ∙ p))) b),
    DistinctKeys-append es ds h.1 g a.1 b,
  )
    where
      true_is_not_false : true ≡ false → ⊥
      true_is_not_false p = cc

  pub index_entries-indices :
      (es : Entries V) → All (λ e. is_array_index e.0 ≡ true) (index_entries es)
  unfolding index_entries
  index_entries-indices [] = tt
  index_entries-indices ((k, v) ∷ es) = elim (Bool-cases (is_array_index k)) [
    | inl e ↦ rw e (e, index_entries-indices es)
    | inr e ↦ rw e (index_entries-indices es)
  ]

  pub other_entries-others :
      (es : Entries V) → All (λ e. is_array_index e.0 ≡ false) (other_entries es)
  unfolding other_entries
  other_entries-others [] = tt
  other_entries-others ((k, v) ∷ es) = elim (Bool-cases (is_array_index k)) [
    | inl e ↦ rw e (other_entries-others es)
    | inr e ↦ rw e (e, other_entries-others es)
  ]

  DistinctKeys-index_entries : (es : Entries V) → DistinctKeys es → DistinctKeys (index_entries es)
  unfolding index_entries
  DistinctKeys-index_entries [] h = tt
  DistinctKeys-index_entries ((k, v) ∷ es) h = elim (Bool-cases (is_array_index k)) [
    | inl e ↦ rw e (All-index_entries (λ d. k ≢ d.0) es h.0, DistinctKeys-index_entries es h.1)
    | inr e ↦ rw e (DistinctKeys-index_entries es h.1)
  ]

  DistinctKeys-other_entries : (es : Entries V) → DistinctKeys es → DistinctKeys (other_entries es)
  unfolding other_entries
  DistinctKeys-other_entries [] h = tt
  DistinctKeys-other_entries ((k, v) ∷ es) h = elim (Bool-cases (is_array_index k)) [
    | inl e ↦ rw e (DistinctKeys-other_entries es h.1)
    | inr e ↦ rw e (All-other_entries (λ d. k ≢ d.0) es h.0, DistinctKeys-other_entries es h.1)
  ]

  pub DistinctKeys-enumerate : (es : Entries V) → DistinctKeys es → DistinctKeys (enumerate es)
  unfolding enumerate
  DistinctKeys-enumerate es h =
      DistinctKeys-append (sort_entries (index_entries es)) (other_entries es)
        (DistinctKeys-sort_entries (index_entries es) (DistinctKeys-index_entries es h))
        (DistinctKeys-other_entries es h)
        (All-sort_entries (λ e. is_array_index e.0 ≡ true) (index_entries es)
          (index_entries-indices es))
        (other_entries-others es)

  -- A new key goes to the end.
  pub put-new :
      (k : Bytes) (v : V) (es ds : Entries V)
      → DistinctKeys (es ++ (k, v) ∷ ds)
      → put k v es ≡ es ++ (k, v) ∷ []
  unfolding put
  put-new k v [] ds h = refl
  put-new k v ((j, w) ∷ es) ds h =
      rw (differs j k (here es ds h.0)) (ap (◌∷◌ (j, w)) (put-new k v es ds h.1))
    where
      here : (cs bs : Entries V) → Absent j (cs ++ (k, v) ∷ bs) → j ≢ k
      here [] bs a = a.0
      here (_ ∷ cs) bs a = here cs bs a.1

      differs : (a b : Bytes) → a ≢ b → text_eq a b ≡ false
      differs a b n = elim (Bool-cases (text_eq a b)) [
        | inl e ↦ absurd (n ((text_eq_iff a b).0 e))
        | inr e ↦ e
      ]
