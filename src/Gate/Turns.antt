-- ===== src/Gate/Turns.antt =====
-- internal/passwordgate/passwordgate.go: the turns of attempts. The mutex makes `tryTake` and `give`
-- one step each; the channels, which only wake the waiting, are left out.
use pages.Common.{
  Bool, List, Option, Text, [], false, if◌then◌else◌, ltb, none, some, text_eq, true, ℕ, ◌&&◌, ◌++◌,
  ◌==◌, ◌||◌, ◌∷◌,
}

-- A set of credentials, and a credential in it.
unfoldable pub has_key : Text → List Text → Bool
unfolding text_eq
has_key k [] = false
has_key k (x ∷ xs) = text_eq k x || has_key k xs

-- The loop of `tryTake` over the keys: one of them is held.
unfoldable pub busy : List Text → List Text → Bool
unfolding has_key
busy held [] = false
busy held (k ∷ ks) = has_key k held || busy held ks

-- `tryTake`: the keys held after it, if it took them.
unfoldable pub try_take : List Text → List Text → Option (List Text)
unfolding busy
try_take keys held = if busy held keys then none else some (keys ++ held)

-- `delete(t.held, k)`
unfoldable pub delete_key : Text → List Text → List Text
unfolding text_eq
delete_key k [] = []
delete_key k (x ∷ xs) = let rest = delete_key k xs in if text_eq k x then rest else x ∷ rest

-- `give`
unfoldable pub give : List Text → List Text → List Text
unfolding delete_key
give [] held = held
give (k ∷ ks) held = give ks (delete_key k held)

-- An attempt that has acquired its turns: its number and its keys. Its release is to come.
abbrev pub Holder : Type 0
Holder = ℕ × List Text

-- The keys held, and the attempts whose release has not run.
pub record Turns : Type 0 where
  pub held : List Text
  pub holders : List Holder

-- The release of an attempt: `once.Do` runs it the first time only.
unfoldable pub keys_of : ℕ → List Holder → Option (List Text)
keys_of id [] = none
keys_of id (h ∷ hs) = let rest = keys_of id hs in if h.0 == id then some h.1 else rest

unfoldable pub drop_holder : ℕ → List Holder → List Holder
drop_holder id [] = []
drop_holder id (h ∷ hs) = let rest = drop_holder id hs in if h.0 == id then hs else h ∷ rest

-- The order of Go's strings: that of their bytes, which is that of their code points.
unfoldable pub text_before : Text → Text → Bool
text_before [] [] = false
text_before [] (_ ∷ _) = true
text_before (_ ∷ _) [] = false
text_before (c ∷ cs) (d ∷ ds) =
    let rest = text_before cs ds in if ltb c d then true else c == d && rest

unfoldable pub insert_key : Text → List Text → List Text
unfolding text_before
insert_key k [] = k ∷ []
insert_key k (x ∷ xs) =
    let rest = insert_key k xs in if text_before x k then x ∷ rest else k ∷ x ∷ xs

-- `slices.Sorted`
unfoldable pub sort_keys : List Text → List Text
unfolding insert_key
sort_keys [] = []
sort_keys (k ∷ ks) = insert_key k (sort_keys ks)

-- `slices.Compact`: the first of each run of equal keys.
unfoldable pub compact : List Text → List Text
unfolding text_eq
compact [] = []
compact (k ∷ []) = k ∷ []
compact (k ∷ j ∷ ks) = let rest = compact (j ∷ ks) in if text_eq k j then rest else k ∷ rest

-- What an attempt may do: one round of `Acquire` with these keys, or a call of its release.
pub data Attempt : Type 0 where
  acquire : ℕ → List Text → Attempt
  release : ℕ → Attempt

-- A round of `Acquire`
unfoldable pub acquire_turns : ℕ → List Text → Turns → Turns
unfolding try_take sort_keys compact
acquire_turns id keys t =
    let set = compact (sort_keys keys) in
    elim (try_take set t.held) [
      | none ↦ t
      | some now_held ↦ record { held = now_held; holders = (id, set) ∷ t.holders }
    ]

-- A call of the release
unfoldable pub release_turns : ℕ → Turns → Turns
unfolding give keys_of drop_holder
release_turns id t = elim (keys_of id t.holders) [
  | none ↦ t
  | some keys ↦ record { held = give keys t.held; holders = drop_holder id t.holders }
]

unfoldable pub act : Attempt → Turns → Turns
unfolding acquire_turns release_turns
act (acquire id keys) t = acquire_turns id keys t
act (release id) t = release_turns id t

-- A history, first action first.
unfoldable pub act_all : List Attempt → Turns → Turns
unfolding act
act_all [] t = t
act_all (a ∷ more) t = act_all more (act a t)

abbrev pub no_turns : Turns
no_turns = record { held = []; holders = [] }
