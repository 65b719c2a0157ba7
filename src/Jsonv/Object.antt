-- ===== src/Jsonv/Object.antt =====
-- internal/jsonv/jsonv.go: the type `Object`, with its lists of keys and values and its index.
use pages.Common.{
  Bool, List, Option, [], false, if◌then◌else◌, length, ltb, none, some, suc, text_eq, true, zero,
  ℕ, ◌++◌, ◌-◌, ◌==◌, ◌∷◌,
}
use pages.Jsonv.Entries.{Entries, enumerate, is_array_index, put, value_at}
use pages.Jsonv.Utf8.{Bytes}

module _ {ℓ} {A : Type ℓ} where
  abbrev pub get_elem? : List A → ℕ → Option A
  get_elem? [] i = none
  get_elem? (x ∷ xs) zero = some x
  get_elem? (x ∷ xs) (suc i) = get_elem? xs i

  -- `xs[i] = v`
  abbrev pub set_elem : List A → ℕ → A → List A
  set_elem [] i v = []
  set_elem (x ∷ xs) zero v = v ∷ xs
  set_elem (x ∷ xs) (suc i) v = x ∷ set_elem xs i v

  -- `append(xs[:i:i], xs[i+1:]...)`
  abbrev pub erase_elem : List A → ℕ → List A
  erase_elem [] i = []
  erase_elem (x ∷ xs) zero = xs
  erase_elem (x ∷ xs) (suc i) = x ∷ erase_elem xs i

-- The place of a key in a list of keys, given whether it is the first and its place after that.
abbrev pub first_or : Bool → Option ℕ → Option ℕ
first_or true o = some 0
first_or false none = none
first_or false (some i) = some (suc i)

unfoldable pub position : Bytes → List Bytes → Option ℕ
position k [] = none
position k (j ∷ js) = first_or (text_eq j k) (position k js)

-- `Object`. The index is a map from keys to places, once there is one.
pub record Object {ℓ} (V : Type ℓ) : Type ℓ where
  pub keys : List Bytes
  pub vals : List V
  pub index : Option (Entries ℕ)
  pub nidx : ℕ

abbrev pub index_threshold : ℕ
index_threshold = 8

-- The loop of `reindex`, from a place on.
unfoldable pub index_from : ℕ → List Bytes → Entries ℕ → Entries ℕ
unfolding put
index_from i [] m = m
index_from i (k ∷ ks) m = index_from (suc i) ks (put k i m)

-- A key on its own.
abbrev pub tagged : List Bytes → Entries (Unit {0})
tagged [] = []
tagged (k ∷ ks) = (k, tt) ∷ tagged ks

abbrev pub names_of {κ} : {W : Type κ} → Entries W → List Bytes
names_of [] = []
names_of ((k, _) ∷ es) = k ∷ names_of es

-- `reindex`
unfoldable pub reindex : List Bytes → Entries ℕ
unfolding index_from
reindex ks = index_from 0 ks []

-- The index after a key was added at the end of the keys.
unfoldable pub index_added : Bytes → List Bytes → Option (Entries ℕ) → Option (Entries ℕ)
unfolding put reindex
index_added k ks (some m) = some (put k (length ks - 1) m)
index_added k ks none = if ltb index_threshold (length ks) then some (reindex ks) else none

-- The index after a key was taken out.
unfoldable pub index_again : List Bytes → Option (Entries ℕ) → Option (Entries ℕ)
unfolding reindex
index_again ks (some _) = some (reindex ks)
index_again ks none = none

module _ {ℓ} {V : Type ℓ} where
  -- `NewObject`
  unfoldable pub new_object : Object V
  new_object = record { keys = []; vals = []; index = none; nidx = 0 }

  -- `place_of`
  unfoldable pub place_of : Object V → Bytes → Option ℕ
  unfolding value_at position
  place_of o k = elim o.index [ some m ↦ value_at k m | none ↦ position k o.keys ]

  -- `Get`
  unfoldable pub get : Object V → Bytes → Option V
  unfolding place_of
  get o k = elim (place_of o k) [ none ↦ none | some i ↦ get_elem? o.vals i ]

  -- `Set`
  unfoldable pub set : Object V → Bytes → V → Object V
  unfolding place_of is_array_index index_added
  set o k v = elim (place_of o k) [
    | some i ↦ record o { vals = set_elem o.vals i v }
    | none ↦ record {
      keys = o.keys ++ k ∷ [];
      vals = o.vals ++ v ∷ [];
      index = index_added k (o.keys ++ k ∷ []) o.index;
      nidx = if is_array_index k then suc o.nidx else o.nidx;
    }
  ]

  -- `Delete`
  unfoldable pub delete : Object V → Bytes → Object V
  unfolding place_of is_array_index index_again
  delete o k = elim (place_of o k) [
    | none ↦ o
    | some i ↦ record {
      keys = erase_elem o.keys i;
      vals = erase_elem o.vals i;
      index = index_again (erase_elem o.keys i) o.index;
      nidx = if is_array_index k then o.nidx - 1 else o.nidx;
    }
  ]

  -- `Keys`
  unfoldable pub ordered_keys : Object V → List Bytes
  unfolding enumerate
  ordered_keys o = if o.nidx == 0 then o.keys else names_of (enumerate (tagged o.keys))

  -- The pairs of two lists.
  abbrev pub zipped : List Bytes → List V → Entries V
  zipped [] vs = []
  zipped (k ∷ ks) [] = []
  zipped (k ∷ ks) (v ∷ vs) = (k, v) ∷ zipped ks vs

  abbrev pub look_up_all : Object V → List Bytes → Entries V
  look_up_all o [] = []
  look_up_all o (k ∷ ks) =
      let rest = look_up_all o ks in elim (get o k) [ none ↦ rest | some v ↦ (k, v) ∷ rest ]

  -- The calls that `Range` makes of a function that never stops it.
  unfoldable pub range : Object V → Entries V
  unfolding get
  range o = if o.nidx == 0 then zipped o.keys o.vals else look_up_all o (ordered_keys o)
