-- ===== src/Jsonv/RoundTrip.antt =====
-- internal/jsonv/jsonv.go: what Stringify writes, Parse reads back.
use pages.Common.{All, Bool, [], ap, arith, map, refl, suc, ℕ, ◌∷◌, ◌≡◌}
use pages.Jsonv.Brackets.{array_text-Reads, object_text-Reads}
use pages.Jsonv.Canon.{ArePrintable, HasPrintable, IsPrintable, canon, canon_entries, canon_items}
use pages.Jsonv.Entries.{enumerate}
use pages.Jsonv.Loops.{Members, Pairs, ReadsMember, items_of}
use pages.Jsonv.Mapped.{enumerate-map_values, map_values}
use pages.Jsonv.Numbers.{Doubles}
use pages.Jsonv.Orders.{Absent, All-enumerate, DistinctKeys, DistinctKeys-enumerate}
use pages.Jsonv.Parse.{fuel_of, parse_as, skip_space, value}
use pages.Jsonv.Print.{field_texts, item_texts, stringify}
use pages.Jsonv.Reading.{Rounds}
use pages.Jsonv.Scalars.{
  Reads, boolean-Reads, null-Reads, number-Reads, skip_space-Opens, string-Reads,
}
use pages.Jsonv.Utf8.{Bytes}
use pages.Jsonv.Values.{
  Fields, Items, Value, arr, boolean, cons, end, entries_of, field, nil, null, num, obj, ok, str,
}
use mathlib.Core.List.{append-nil}
use mathlib.Core.Path.{subst}

module _ {F : Doubles} (R : Rounds F) (w : Bool) where
  open F use {Double}

  -- The elements of an array and the members of an object, written and as they are read.
  abbrev item_pairs : Items Double → Pairs R w
  item_pairs nil = []
  item_pairs (cons x xs) = (stringify F x, canon R x) ∷ item_pairs xs

  abbrev field_members : Fields Double → Members R w
  field_members end = []
  field_members (field k v fs) = (k, (stringify F v, canon R v)) ∷ field_members fs

  item_pairs-texts : (xs : Items Double) → item_texts F xs ≡ map (λ p. p.0) (item_pairs xs)
  unfolding stringify
  item_pairs-texts nil = refl
  item_pairs-texts (cons x xs) = ap (◌∷◌ (stringify F x)) (item_pairs-texts xs)

  item_pairs-values :
      (xs : Items Double) → canon_items R xs ≡ items_of (map (λ p. p.1) (item_pairs xs))
  unfolding canon
  item_pairs-values nil = refl
  item_pairs-values (cons x xs) = ap (cons (canon R x)) (item_pairs-values xs)

  field_members-texts :
      (fs : Fields Double) → field_texts F fs ≡ map_values (λ p. p.0) (field_members fs)
  unfolding stringify
  field_members-texts end = refl
  field_members-texts (field k v fs) = ap (◌∷◌ (k, stringify F v)) (field_members-texts fs)

  field_members-values :
      (fs : Fields Double) → canon_entries R fs ≡ map_values (λ p. p.1) (field_members fs)
  unfolding canon
  field_members-values end = refl
  field_members-values (field k v fs) = ap (◌∷◌ (k, canon R v)) (field_members-values fs)

  field_members-Absent :
      (k : Bytes) (fs : Fields Double)
      → Absent k (entries_of fs)
      → Absent k (map_values (λ p. p.1) (field_members fs))
  field_members-Absent k end h = tt
  field_members-Absent k (field j v fs) h = (h.0, field_members-Absent k fs h.1)

  field_members-DistinctKeys :
      (fs : Fields Double)
      → DistinctKeys (entries_of fs)
      → DistinctKeys (map_values (λ p. p.1) (field_members fs))
  field_members-DistinctKeys end h = tt
  field_members-DistinctKeys (field k v fs) h =
      (field_members-Absent k fs h.0, field_members-DistinctKeys fs h.1)

  mutual
    unfolding stringify canon IsPrintable

    stringify-Reads :
        (depth : ℕ) (v : Value Double)
        → IsPrintable depth v
        → Reads R w depth (stringify F v) (canon R v)
    stringify-Reads depth null h = null-Reads R w depth h
    stringify-Reads depth (boolean b) h = boolean-Reads R w depth h b
    stringify-Reads depth (num d) h = number-Reads R w depth h d
    stringify-Reads depth (str s) h = string-Reads R w depth h.0 s h.1
    stringify-Reads depth (arr xs) h =
        rw (item_pairs-texts xs, item_pairs-values xs)
          (array_text-Reads R w depth (item_pairs xs) h.0 (item_pairs-Reads (suc depth) xs h.1))
    stringify-Reads depth (obj fs) h =
        let ms = field_members fs in
        rw
          (
            field_members-texts fs,
            field_members-values fs,
            enumerate-map_values (λ p. p.0) ms,
            enumerate-map_values (λ p. p.1) ms,
          )
          (object_text-Reads R w depth (enumerate ms) h.0
            (All-enumerate (ReadsMember R w (suc depth)) ms
              (field_members-Reads (suc depth) fs h.2))
            (subst DistinctKeys (enumerate-map_values (λ p. p.1) ms) (
              DistinctKeys-enumerate (map_values (λ p. p.1) ms)
                (field_members-DistinctKeys fs h.1))))

    item_pairs-Reads :
        (depth : ℕ) (xs : Items Double)
        → ArePrintable depth xs
        → All (λ p. Reads R w depth p.0 p.1) (item_pairs xs)
    item_pairs-Reads depth nil h = tt
    item_pairs-Reads depth (cons x xs) h =
        (stringify-Reads depth x h.0, item_pairs-Reads depth xs h.1)

    field_members-Reads :
        (depth : ℕ) (fs : Fields Double)
        → HasPrintable depth fs
        → All (ReadsMember R w depth) (field_members fs)
    field_members-Reads depth end h = tt
    field_members-Reads depth (field k v fs) h =
        ((h.0, stringify-Reads depth v h.1), field_members-Reads depth fs h.2)

  -- A value with valid UTF-8 in its strings, distinct keys in its objects and a depth of 10,000 at
  -- most is read back from the text that `stringify` writes, as JSON keeps it: with null for a number
  -- that is not finite, and with the entries of each object in JavaScript's order. Numbers are as
  -- `Rounds` says.
  pub parse_as-stringify :
      (v : Value Double) → IsPrintable 0 v → parse_as F w (stringify F v) ≡ ok (canon R v)
  unfolding parse_as
  parse_as-stringify v h =
      let reads = stringify-Reads 0 v h in
      let text = stringify F v in
      let start : skip_space text ≡ text =
        rw (append-nil text) at (skip_space-Opens text [] reads.0) in
      let whole : value F w (fuel_of F text) 0 text ≡ ok (canon R v, []) =
        rw (append-nil text) at (reads.1 (fuel_of F text) [] (omega arith) tt) in
      rw (start, whole) (unfold skip_space in refl)
