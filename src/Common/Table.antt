-- ===== src/Common/Table.antt =====
-- Database tables: a list of rows under a key, with the statements that the program runs on them.
use Prim.Native.Nat.{ℕ, ◌<◌}
use mathlib.Core.Bool.{Bool}
use mathlib.Core.List.{List, [], ◌∷◌}
use mathlib.Core.Option.{Option, none, some}
use pages.Common.Tests.{◌==◌, if◌then◌else◌}

module _ {A : Type 0} (key : A → ℕ) where
  -- `SELECT … WHERE key = k`
  unfoldable pub find : ℕ → List A → Option A
  find k [] = none
  find k (x ∷ xs) = if key x == k then some x else find k xs

  -- `UPDATE … SET … WHERE key = k`
  unfoldable pub modify : ℕ → (A → A) → List A → List A
  modify k f [] = []
  modify k f (x ∷ xs) = (if key x == k then f x else x) ∷ modify k f xs

  -- Keys fall along the list, from below `n`: the identity column of an append-only table.
  abbrev pub Below : ℕ → List A → Type 0
  Below n [] = Unit {0}
  Below n (x ∷ xs) = (key x < n) × Below (key x) xs

-- `SELECT … WHERE p LIMIT 1`, the newest row first.
unfoldable pub select : {A : Type 0} → (A → Bool) → List A → Option A
select p [] = none
select p (x ∷ xs) = if p x then some x else select p xs
