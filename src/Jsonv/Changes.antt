-- ===== src/Jsonv/Changes.antt =====
-- internal/jsonv/jsonv.go: an `Object` after any history of `Set` and `Delete`.
use pages.Common.{
  ==_iff, All, All-map, Bool-cases, List, [], ap, arith, false, inl, inr, length, none, refl, some,
  sym, text_eq, text_eq_iff, text_eq_refl, ◌==◌, ◌∙◌, ◌∷◌, ◌≡◌,
}
use pages.Jsonv.Entries.{
  Entries, enumerate, index_entries, is_array_index, other_entries, put, remove, value_at,
}
use pages.Jsonv.Mapped.{enumerate-map_values, map_values}
use pages.Jsonv.Object.{
  Object, delete, get, look_up_all, names_of, new_object, ordered_keys, position, range, set,
  tagged, zipped,
}
use pages.Jsonv.Objects.{
  IsSound, delete-IsSound, entries, get-value_at, new_object-IsSound, set-IsSound,
}
use pages.Jsonv.Orders.{All-enumerate}
use pages.Jsonv.Refined.{NoDup, count_indices, missing}
use pages.Jsonv.Utf8.{Bytes}

-- A call that changes an object.
pub data Change {ℓ} (V : Type ℓ) : Type ℓ where
  setting : Bytes → V → Change V
  deleting : Bytes → Change V

module _ {ℓ} {V : Type ℓ} where
  unfoldable pub changed : Object V → Change V → Object V
  unfolding set delete
  changed o (setting k v) = set o k v
  changed o (deleting k) = delete o k

  unfoldable pub changed_by : Object V → List (Change V) → Object V
  unfolding changed
  changed_by o [] = o
  changed_by o (c ∷ cs) = changed_by (changed o c) cs

  -- The same on the entries in order.
  unfoldable pub entries_changed : Entries V → List (Change V) → Entries V
  unfolding put remove
  entries_changed es [] = es
  entries_changed es (setting k v ∷ cs) = entries_changed (put k v es) cs
  entries_changed es (deleting k ∷ cs) = entries_changed (remove k es) cs

  changed_by-IsSound :
      (o : Object V) (cs : List (Change V))
      → IsSound o
      → IsSound (changed_by o cs) × (entries (changed_by o cs) ≡ entries_changed (entries o) cs)
  unfolding changed_by entries_changed
  changed_by-IsSound o [] h = (h, refl)
  changed_by-IsSound o (setting k v ∷ cs) h =
      let (sound, now) = set-IsSound o k v h in
      let (later, after) = changed_by-IsSound (set o k v) cs sound in
      (later, after ∙ ap (λ es. entries_changed es cs) now)
  changed_by-IsSound o (deleting k ∷ cs) h =
      let (sound, now) = delete-IsSound o k h in
      let (later, after) = changed_by-IsSound (delete o k) cs sound in
      (later, after ∙ ap (λ es. entries_changed es cs) now)

  -- An object with no array indices is in order as it is.
  enumerate-plain : (es : Entries V) → count_indices (names_of es) ≡ 0 → enumerate es ≡ es
  unfolding enumerate
  enumerate-plain es h = rw (plain es h).0 (plain es h).1
    where
      plain :
          (ds : Entries V)
          → count_indices (names_of ds) ≡ 0
          → (index_entries ds ≡ []) × (other_entries ds ≡ ds)
      plain [] h = (refl, refl)
      plain ((k, v) ∷ ds) h =
          let (no_indices, rest) = plain ds (omega arith) in
          let other : is_array_index k ≡ false = ground arith in
          rw other (no_indices, ap (◌∷◌ (k, v)) rest)

  -- The keys in order, each looked up, are the entries in order.
  look_up_all-entries :
      (o : Object V) (es : Entries V)
      → All (λ e. get o e.0 ≡ some e.1) es
      → look_up_all o (names_of es) ≡ es
  look_up_all-entries o [] h = refl
  look_up_all-entries o ((k, v) ∷ es) h =
      rw (look_up_all, h.0) (ap (◌∷◌ (k, v)) (look_up_all-entries o es h.1))

  zipped-apart :
      (k : Bytes) (ks : List Bytes) (vs : List V)
      → position k ks ≡ none
      → All (λ e. text_eq k e.0 ≡ false) (zipped ks vs)
  unfolding position
  zipped-apart k [] vs e = tt
  zipped-apart k (j ∷ ks) [] e = tt
  zipped-apart k (j ∷ ks) (v ∷ vs) e =
      let (apart, gone) = missing (text_eq j k) (position k ks) e in
      (ground (arith, text_eq_iff j k, text_eq_iff k j), zipped-apart k ks vs gone)

  zipped-value_at :
      (ks : List Bytes) (vs : List V)
      → NoDup ks
      → All (λ e. value_at e.0 (zipped ks vs) ≡ some e.1) (zipped ks vs)
  zipped-value_at [] vs h = tt
  zipped-value_at (k ∷ ks) [] h = tt
  zipped-value_at (k ∷ ks) (v ∷ vs) h =
      (here, later (zipped ks vs) (zipped-apart k ks vs h.0) (zipped-value_at ks vs h.1))
    where
      here : value_at k ((k, v) ∷ zipped ks vs) ≡ some v
      here = unfold value_at in rw (text_eq_refl k) refl

      later :
          (es : Entries V)
          → All (λ e. text_eq k e.0 ≡ false) es
          → All (λ e. value_at e.0 (zipped ks vs) ≡ some e.1) es
          → All (λ e. value_at e.0 ((k, v) ∷ zipped ks vs) ≡ some e.1) es
      later [] a g = tt
      later (e ∷ es) a g = (unfold value_at in rw a.0 g.0, later es a.1 g.1)

  zipped-get : (o : Object V) → IsSound o → All (λ e. get o e.0 ≡ some e.1) (entries o)
  zipped-get o h =
      All-map (entries o) (λ e p. get-value_at o e.0 h ∙ p) (zipped-value_at o.keys o.vals h.no_dup)

  tagged-keys : (es : Entries V) → tagged (names_of es) ≡ map_values (λ _. tt) es
  tagged-keys [] = refl
  tagged-keys ((k, v) ∷ es) = ap (◌∷◌ (k, tt)) (tagged-keys es)

  names_of-map_values :
      (es : Entries V)
      → names_of (map_values (λ (_ : V). let u : Unit {0} = tt in u) es) ≡ names_of es
  names_of-map_values [] = refl
  names_of-map_values ((k, v) ∷ es) = ap (◌∷◌ k) (names_of-map_values es)

  names_of-zipped :
      (ks : List Bytes) (vs : List V) → length ks ≡ length vs → names_of (zipped ks vs) ≡ ks
  names_of-zipped [] vs h = refl
  names_of-zipped (k ∷ ks) [] h = absurd (omega arith)
  names_of-zipped (k ∷ ks) (v ∷ vs) h = ap (◌∷◌ k) (names_of-zipped ks vs (omega arith))

  -- `Keys` gives the keys in JavaScript's order.
  pub ordered_keys-enumerate :
      (o : Object V) → IsSound o → ordered_keys o ≡ names_of (enumerate (entries o))
  unfolding ordered_keys
  ordered_keys-enumerate o h =
      let names = names_of-zipped o.keys o.vals h.same_length in
      elim (Bool-cases (o.nidx == 0)) [
        | inl none_left ↦
            let zero : count_indices o.keys ≡ 0 = sym h.counted ∙ (==_iff o.nidx 0).0 none_left in
            let plain = enumerate-plain (entries o) (ap count_indices names ∙ zero) in
            rw (none_left) (sym (ap names_of plain ∙ names))
        | inr some_left ↦ rw some_left (
            ap (λ ks. names_of (enumerate (tagged ks))) (sym names)
            ∙ (ap (λ es. names_of (enumerate es)) (tagged-keys (entries o))
                ∙ (ap names_of (enumerate-map_values (λ _. tt) (entries o))
                    ∙ names_of-map_values (enumerate (entries o)))))
      ]

  -- `Range` goes through the entries in JavaScript's order.
  pub range-enumerate : (o : Object V) → IsSound o → range o ≡ enumerate (entries o)
  unfolding range
  range-enumerate o h = elim (Bool-cases (o.nidx == 0)) [
    | inl none_left ↦
        let zero : count_indices o.keys ≡ 0 = sym h.counted ∙ (==_iff o.nidx 0).0 none_left in
        let names = names_of-zipped o.keys o.vals h.same_length in
        rw none_left (sym (enumerate-plain (entries o) (ap count_indices names ∙ zero)))
    | inr some_left ↦ rw some_left (
        ap (look_up_all o) (ordered_keys-enumerate o h)
        ∙ look_up_all-entries o (enumerate (entries o))
            (All-enumerate (λ e. get o e.0 ≡ some e.1) (entries o) (zipped-get o h)))
  ]

  -- After any history of `Set` and `Delete` on a new object, whether or not it has an index by then,
  -- `Get` answers what the list of entries holds, and `Range` and `Keys` go through that list in
  -- JavaScript's order. In the list a new key goes to the end, an old one keeps its place, and a
  -- deleted one leaves the others in their order.
  pub changed_by-entries :
      (cs : List (Change V)) (k : Bytes)
      → let o = changed_by new_object cs in
        let es = entries_changed [] cs in
        (get o k ≡ value_at k es)
        × (range o ≡ enumerate es)
        × (ordered_keys o ≡ names_of (enumerate es))
  changed_by-entries cs k =
      let (sound, same) = changed_by-IsSound new_object cs new_object-IsSound in
      let from_none : entries (changed_by new_object cs) ≡ entries_changed [] cs =
        same ∙ ap (λ es. entries_changed es cs) (unfold new_object in refl) in
      (
        get-value_at (changed_by new_object cs) k sound ∙ ap (value_at k) from_none,
        range-enumerate (changed_by new_object cs) sound ∙ ap enumerate from_none,
        ordered_keys-enumerate (changed_by new_object cs) sound
            ∙ ap (λ es. names_of (enumerate es)) from_none,
      )
