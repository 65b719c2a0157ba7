-- ===== src/Jsonv/Stable.antt =====
-- internal/jsonv/jsonv.go: the text of a value stays the same when it is parsed and written again.
use pages.Common.{
  All, All-map, Bool, Bool-cases, [], ap, arith, false, inl, inr, ltb, ltb→ge, ltb→lt, map, refl,
  sym, true, ℕ, ◌++◌, ◌∙◌, ◌∷◌, ◌≡◌, ◌≤◌,
}
use pages.Common.Strings.{decimal_value}
use pages.Jsonv.Canon.{IsPrintable, canon, canon_entries, canon_items}
use pages.Jsonv.Entries.{
  Entries, enumerate, index_entries, insert_entry, is_array_index, other_entries, sort_entries,
}
use pages.Jsonv.Mapped.{enumerate-map_values, map_values}
use pages.Jsonv.Numbers.{
  Doubles, Kind, infinite, not_a_number, pos, regular, write_number, zero_number,
}
use pages.Jsonv.Orders.{
  All-insert_entry, All-sort_entries, index_entries-indices, other_entries-others,
}
use pages.Jsonv.Parse.{parse_as}
use pages.Jsonv.Print.{field_texts, item_texts, join, member_text, stringify}
use pages.Jsonv.Reading.{Rounds}
use pages.Jsonv.RoundTrip.{parse_as-stringify}
use pages.Jsonv.Scalars.{canon_number, infinite-Written, nan-Written, regular-Written, zero-Written}
use pages.Jsonv.Utf8.{Bytes}
use pages.Jsonv.Values.{
  Fields, Items, Value, arr, boolean, cons, end, field, fields_of, nil, null, num, obj, ok, str,
}
use native.Mathlib.Nat.{le_trans}

abbrev pub key_value : Bytes → ℕ
key_value k = decimal_value 0 k

module _ {ℓ} {V : Type ℓ} where
  -- No entry has a smaller number than an earlier one.
  abbrev pub Ascending : Entries V → Type 0
  Ascending [] = Unit
  Ascending (e ∷ es) = All (λ d. key_value e.0 ≤ key_value d.0) es × Ascending es

  insert_entry-Ascending :
      (e : Bytes × V) (es : Entries V) → Ascending es → Ascending (insert_entry e es)
  unfolding insert_entry
  insert_entry-Ascending e [] h = (tt, tt)
  insert_entry-Ascending e (d ∷ es) h = elim (Bool-cases (ltb (key_value d.0) (key_value e.0))) [
    | inl less ↦
        let l = ltb→lt (key_value d.0) (key_value e.0) less in
        rw less (
          All-insert_entry (λ c. key_value d.0 ≤ key_value c.0) e es (omega arith) h.0,
          insert_entry-Ascending e es h.1,
        )
    | inr more ↦
        let m = ltb→ge (key_value d.0) (key_value e.0) more in
        rw more ((m, All-map es (λ c p. le_trans m p) h.0), h)
  ]

  sort_entries-Ascending : (es : Entries V) → Ascending (sort_entries es)
  unfolding sort_entries
  sort_entries-Ascending [] = tt
  sort_entries-Ascending (e ∷ es) =
      insert_entry-Ascending e (sort_entries es) (sort_entries-Ascending es)

  insert_entry-least :
      (e : Bytes × V) (es : Entries V)
      → All (λ d. key_value e.0 ≤ key_value d.0) es
      → insert_entry e es ≡ e ∷ es
  unfolding insert_entry
  insert_entry-least e [] h = refl
  insert_entry-least e (d ∷ es) h =
      let least : ltb (key_value d.0) (key_value e.0) ≡ false =
        not_less (key_value e.0) (key_value d.0) h.0 in
      rw least refl
    where
      not_less : (a b : ℕ) → a ≤ b → ltb b a ≡ false
      not_less a b p = ground arith

  sort_entries-sorted : (es : Entries V) → Ascending es → sort_entries es ≡ es
  unfolding sort_entries
  sort_entries-sorted [] h = refl
  sort_entries-sorted (e ∷ es) h = rw (sort_entries-sorted es h.1) (insert_entry-least e es h.0)

  -- The parts of a list that has the entries of index keys first.
  index_entries-split :
      (es ds : Entries V)
      → All (λ e. is_array_index e.0 ≡ true) es
      → All (λ e. is_array_index e.0 ≡ false) ds
      → (index_entries (es ++ ds) ≡ es) × (other_entries (es ++ ds) ≡ ds)
  unfolding index_entries other_entries
  index_entries-split [] [] a b = (refl, refl)
  index_entries-split [] (d ∷ ds) a b =
      let ih = index_entries-split [] ds a b.1 in (rw b.0 ih.0, rw b.0 (ap (◌∷◌ d) ih.1))
  index_entries-split (e ∷ es) ds a b =
      let ih = index_entries-split es ds a.1 b in (rw a.0 (ap (◌∷◌ e) ih.0), rw a.0 ih.1)

  -- The order of enumeration is kept by an object that is built in it.
  pub enumerate_twice : (es : Entries V) → enumerate (enumerate es) ≡ enumerate es
  unfolding enumerate
  enumerate_twice es =
      let (indices, others) =
        index_entries-split (sort_entries (index_entries es)) (other_entries es)
          (All-sort_entries (λ e. is_array_index e.0 ≡ true) (index_entries es)
            (index_entries-indices es))
          (other_entries-others es) in
      rw (indices, others)
        (ap (λ ds. ds ++ other_entries es)
          (sort_entries-sorted (sort_entries (index_entries es))
            (sort_entries-Ascending (index_entries es))))

module _ {F : Doubles} (R : Rounds F) where
  open F use {Double}

  write_number-canon : (d : Double) → stringify F (canon_number R d) ≡ write_number F d
  write_number-canon d = kinds (F.kind_of d) refl
    where
      kinds : (k : Kind) → F.kind_of d ≡ k → stringify F (canon_number R d) ≡ write_number F d
      kinds not_a_number k = let (t, v) = nan-Written R d k in rw (t, v) (unfold stringify in refl)
      kinds (infinite n) k =
          let (t, v) = infinite-Written R d n k in rw (t, v) (unfold stringify in refl)
      kinds zero_number k =
          let (t, v) = zero-Written R d k in
          let (u, _) = zero-Written R (R.nearest false 0 (pos 0)) R.nearest_zero in
          rw (t, v) (unfold stringify in u)
      kinds (regular s) k = let (t, v) = regular-Written R d s k in rw v (unfold stringify in refl)

  field_texts-fields_of :
      (es : Entries (Value Double)) → field_texts F (fields_of es) ≡ map_values (stringify F) es
  unfolding stringify
  field_texts-fields_of [] = refl
  field_texts-fields_of ((k, v) ∷ es) = ap (◌∷◌ (k, stringify F v)) (field_texts-fields_of es)

  mutual
    unfolding stringify canon

    stringify-canon : (v : Value Double) → stringify F (canon R v) ≡ stringify F v
    stringify-canon null = refl
    stringify-canon (boolean b) = refl
    stringify-canon (num d) = write_number-canon d
    stringify-canon (str s) = refl
    stringify-canon (arr xs) = ap (λ ts. b'[' ∷ join ts ++ b']' ∷ []) (item_texts-canon xs)
    stringify-canon (obj fs) =
        ap (λ ts. b'{' ∷ join (map member_text ts) ++ b'}' ∷ [])
          (ap enumerate (field_texts-fields_of (enumerate (canon_entries R fs)))
            ∙ (enumerate-map_values (stringify F) (enumerate (canon_entries R fs))
                ∙ (ap (map_values (stringify F)) (enumerate_twice (canon_entries R fs))
                    ∙ (sym (enumerate-map_values (stringify F) (canon_entries R fs))
                        ∙ ap enumerate (field_texts-canon fs)))))

    item_texts-canon : (xs : Items Double) → item_texts F (canon_items R xs) ≡ item_texts F xs
    item_texts-canon nil = refl
    item_texts-canon (cons x xs) = rw (stringify-canon x, item_texts-canon xs) refl

    field_texts-canon :
        (fs : Fields Double) → map_values (stringify F) (canon_entries R fs) ≡ field_texts F fs
    field_texts-canon end = refl
    field_texts-canon (field k v fs) = rw (stringify-canon v, field_texts-canon fs) refl

  -- What is parsed from the text of a value has the same text: a document that is read and written
  -- again stays as it is, byte for byte.
  pub stringify-parse :
      (w : Bool) (v : Value Double)
      → IsPrintable 0 v
      → (u : Value Double) × (parse_as F w (stringify F v) ≡ ok u) × (stringify F u ≡ stringify F v)
  stringify-parse w v h = (canon R v, parse_as-stringify R w v h, stringify-canon v)
