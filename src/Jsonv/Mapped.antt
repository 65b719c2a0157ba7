-- ===== src/Jsonv/Mapped.antt =====
-- internal/jsonv/jsonv.go: the order of an object's entries goes by the keys alone.
use pages.Common.{Bool-cases, [], ap, inl, inr, ltb, refl, sym, ◌++◌, ◌∷◌, ◌≡◌}
use pages.Common.Strings.{decimal_value}
use pages.Jsonv.Entries.{
  Entries, enumerate, index_entries, insert_entry, is_array_index, other_entries, sort_entries,
}
use pages.Jsonv.Utf8.{Bytes}

module _ {ℓ κ} {V : Type ℓ} {W : Type κ} (f : V → W) where
  abbrev pub map_values : Entries V → Entries W
  map_values [] = []
  map_values ((k, v) ∷ es) = (k, f v) ∷ map_values es

  map_values-append : (es ds : Entries V) → map_values (es ++ ds) ≡ map_values es ++ map_values ds
  map_values-append [] ds = refl
  map_values-append ((k, v) ∷ es) ds = ap (◌∷◌ (k, f v)) (map_values-append es ds)

  insert_entry-map_values :
      (k : Bytes) (v : V) (es : Entries V)
      → insert_entry (k, f v) (map_values es) ≡ map_values (insert_entry (k, v) es)
  unfolding insert_entry
  insert_entry-map_values k v [] = refl
  insert_entry-map_values k v ((j, w) ∷ es) =
      elim (Bool-cases (ltb (decimal_value 0 j) (decimal_value 0 k))) [
        | inl less ↦ rw less (ap (◌∷◌ (j, f w)) (insert_entry-map_values k v es))
        | inr more ↦ rw more refl
      ]

  sort_entries-map_values :
      (es : Entries V) → sort_entries (map_values es) ≡ map_values (sort_entries es)
  unfolding sort_entries
  sort_entries-map_values [] = refl
  sort_entries-map_values ((k, v) ∷ es) =
      rw (sort_entries-map_values es) (insert_entry-map_values k v (sort_entries es))

  index_entries-map_values :
      (es : Entries V) → index_entries (map_values es) ≡ map_values (index_entries es)
  unfolding index_entries
  index_entries-map_values [] = refl
  index_entries-map_values ((k, v) ∷ es) = elim (Bool-cases (is_array_index k)) [
    | inl e ↦ rw e (ap (◌∷◌ (k, f v)) (index_entries-map_values es))
    | inr e ↦ rw e (index_entries-map_values es)
  ]

  other_entries-map_values :
      (es : Entries V) → other_entries (map_values es) ≡ map_values (other_entries es)
  unfolding other_entries
  other_entries-map_values [] = refl
  other_entries-map_values ((k, v) ∷ es) = elim (Bool-cases (is_array_index k)) [
    | inl e ↦ rw e (other_entries-map_values es)
    | inr e ↦ rw e (ap (◌∷◌ (k, f v)) (other_entries-map_values es))
  ]

  -- The order goes by the keys.
  pub enumerate-map_values :
      (es : Entries V) → enumerate (map_values es) ≡ map_values (enumerate es)
  unfolding enumerate
  enumerate-map_values es =
      rw
        (
          index_entries-map_values es,
          sort_entries-map_values (index_entries es),
          other_entries-map_values es,
        )
        (sym (map_values-append (sort_entries (index_entries es)) (other_entries es)))
