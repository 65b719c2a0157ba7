-- ===== src/Jsonv/Print.antt =====
-- internal/jsonv/jsonv.go: values written as JSON.stringify writes them.
use pages.Common.{List, [], codes, false, map, true, ◌++◌, ◌∷◌}
use pages.Jsonv.Entries.{Entries, enumerate}
use pages.Jsonv.Numbers.{Doubles, write_number}
use pages.Jsonv.Texts.{quote}
use pages.Jsonv.Utf8.{Bytes}
use pages.Jsonv.Values.{
  Fields, Items, Value, arr, boolean, cons, end, field, nil, null, num, obj, str,
}

-- Texts with commas between them.
unfoldable pub join : List Bytes → Bytes
join [] = []
join (t ∷ []) = t
join (t ∷ u ∷ ts) = t ++ b',' ∷ join (u ∷ ts)

-- A member: its quoted name, and its value, which is already written.
abbrev pub member_text : Bytes × Bytes → Bytes
member_text (k, t) = quote k ++ b':' ∷ t

module _ (F : Doubles) where
  open F use {Double}

  -- `write`
  unfoldable mutual
    unfolding write_number quote enumerate join

    pub stringify : Value Double → Bytes
    stringify null = codes "null"
    stringify (boolean true) = codes "true"
    stringify (boolean false) = codes "false"
    stringify (num d) = write_number F d
    stringify (str s) = quote s
    stringify (arr xs) = b'[' ∷ join (item_texts xs) ++ b']' ∷ []
    stringify (obj fs) = b'{' ∷ join (map member_text (enumerate (field_texts fs))) ++ b'}' ∷ []

    pub item_texts : Items Double → List Bytes
    item_texts nil = []
    item_texts (cons x xs) = stringify x ∷ item_texts xs

    pub field_texts : Fields Double → Entries Bytes
    field_texts end = []
    field_texts (field k v fs) = (k, stringify v) ∷ field_texts fs
