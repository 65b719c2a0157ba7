-- ===== src/Jsonv/Canon.antt =====
-- internal/jsonv/jsonv.go: which values are written as they are read, and what JSON keeps of a value.
use pages.Common.{[], suc, true, ℕ, ◌∷◌, ◌≡◌, ◌≤◌}
use pages.Jsonv.Entries.{Entries, enumerate}
use pages.Jsonv.Numbers.{Doubles}
use pages.Jsonv.Orders.{DistinctKeys}
use pages.Jsonv.Parse.{max_depth}
use pages.Jsonv.Reading.{Rounds}
use pages.Jsonv.Scalars.{canon_number}
use pages.Jsonv.Utf8.{valid}
use pages.Jsonv.Values.{
  Fields, Items, Value, arr, boolean, cons, end, entries_of, field, fields_of, nil, null, num, obj,
  str,
}

module _ {F : Doubles} (R : Rounds F) where
  open F use {Double}

  -- A value as JSON keeps it: numbers as they are read, and the entries in the order of enumeration.
  unfoldable mutual
    unfolding enumerate

    pub canon : Value Double → Value Double
    canon null = null
    canon (boolean b) = boolean b
    canon (num d) = canon_number R d
    canon (str s) = str s
    canon (arr xs) = arr (canon_items xs)
    canon (obj fs) = obj (fields_of (enumerate (canon_entries fs)))

    pub canon_items : Items Double → Items Double
    canon_items nil = nil
    canon_items (cons x xs) = cons (canon x) (canon_items xs)

    pub canon_entries : Fields Double → Entries (Value Double)
    canon_entries end = []
    canon_entries (field k v fs) = (k, canon v) ∷ canon_entries fs

-- What a Go value of the model is: its strings are valid UTF-8, the keys of an object differ, and it
-- nests no deeper than the parser reads, `depth` being the depth of the value.
unfoldable mutual
  pub IsPrintable : {D : Type 0} → ℕ → Value D → Type 0
  IsPrintable depth null = depth ≤ max_depth
  IsPrintable depth (boolean b) = depth ≤ max_depth
  IsPrintable depth (num d) = depth ≤ max_depth
  IsPrintable depth (str s) = (depth ≤ max_depth) × (valid s ≡ true)
  IsPrintable depth (arr xs) = (depth ≤ max_depth) × ArePrintable (suc depth) xs
  IsPrintable depth (obj fs) =
      (depth ≤ max_depth) × DistinctKeys (entries_of fs) × HasPrintable (suc depth) fs

  pub ArePrintable : {D : Type 0} → ℕ → Items D → Type 0
  ArePrintable depth nil = Unit
  ArePrintable depth (cons x xs) = IsPrintable depth x × ArePrintable depth xs

  pub HasPrintable : {D : Type 0} → ℕ → Fields D → Type 0
  HasPrintable depth end = Unit
  HasPrintable depth (field k v fs) = (valid k ≡ true) × IsPrintable depth v × HasPrintable depth fs
