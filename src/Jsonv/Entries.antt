-- ===== src/Jsonv/Entries.antt =====
-- internal/jsonv/jsonv.go: array-index keys, and the entries of an object in JavaScript's order.
use pages.Common.{
  Bool, List, Option, [], codes, false, if◌then◌else◌, length, ltb, none, some, text_eq, true, ◌++◌,
  ◌||◌, ◌∷◌,
}
use pages.Common.Strings.{decimal_value, only_digits}
use pages.Jsonv.Utf8.{Bytes}

-- `IsArrayIndex`
unfoldable pub is_array_index : Bytes → Bool
unfolding only_digits decimal_value
is_array_index [] = false
is_array_index (c ∷ cs) =
    if ltb 10 (length (c ∷ cs))
    then false
    else if text_eq (c ∷ cs) (codes "0")
    then true
    else if ltb c b'1' || ltb b'9' c
    then false
    else if only_digits cs
    then ltb (decimal_value 0 (c ∷ cs)) 4294967295
    else false

abbrev pub Entries {ℓ} : Type ℓ → Type ℓ
Entries V = List (Bytes × V)

module _ {ℓ} {V : Type ℓ} where
  -- The value under a key.
  unfoldable pub value_at : Bytes → Entries V → Option V
  value_at k [] = none
  value_at k ((j, w) ∷ es) = if text_eq j k then some w else value_at k es

  -- A new key goes to the end, an old one keeps its place.
  unfoldable pub put : Bytes → V → Entries V → Entries V
  put k v [] = (k, v) ∷ []
  put k v ((j, w) ∷ es) =
      let rest = put k v es in if text_eq j k then (j, v) ∷ es else (j, w) ∷ rest

  unfoldable pub remove : Bytes → Entries V → Entries V
  remove k [] = []
  remove k ((j, w) ∷ es) = let rest = remove k es in if text_eq j k then es else (j, w) ∷ rest

  unfoldable pub index_entries : Entries V → Entries V
  index_entries [] = []
  index_entries ((k, v) ∷ es) =
      if is_array_index k then (k, v) ∷ index_entries es else index_entries es

  unfoldable pub other_entries : Entries V → Entries V
  other_entries [] = []
  other_entries ((k, v) ∷ es) =
      if is_array_index k then other_entries es else (k, v) ∷ other_entries es

  unfoldable pub insert_entry : Bytes × V → Entries V → Entries V
  insert_entry e [] = e ∷ []
  insert_entry e (d ∷ es) =
      let rest = insert_entry e es in
      if ltb (decimal_value 0 d.0) (decimal_value 0 e.0) then d ∷ rest else e ∷ d ∷ es

  unfoldable pub sort_entries : Entries V → Entries V
  unfolding insert_entry
  sort_entries [] = []
  sort_entries (e ∷ es) = insert_entry e (sort_entries es)

  -- The order in which `Keys` and `Range` go through an object.
  unfoldable pub enumerate : Entries V → Entries V
  unfolding index_entries other_entries sort_entries
  enumerate es = sort_entries (index_entries es) ++ other_entries es
