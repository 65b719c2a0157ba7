-- ===== src/Jsonv/Plain.antt =====
-- internal/jsonv/jsonv.go: the ASCII bytes and the others of a text, as `WriteString` takes them.
use pages.Common.{
  All, Bool, Bool-cases, Option, [], arith, false, if◌then◌else◌, inl, inr, leb, ltb, none, refl,
  some, suc, true, zero, ℕ, ◌&&◌, ◌++◌, ◌<◌, ◌==◌, ◌||◌, ◌∷◌, ◌≡◌, ◌≤◌,
}
use pages.Jsonv.Utf8.{Bytes, Tail, broken, complete, grow, lead, led_by, next_char, tail, valid}
use mathlib.Core.Path.{subst}

abbrev pub IsAscii : Bytes → Type 0
IsAscii t = All (λ c. c < 128) t

abbrev pub IsHigh : Bytes → Type 0
IsHigh t = All (λ c. 128 ≤ c) t

-- A text that can stand before any other: the two are as valid as the other alone.
abbrev pub IsText : Bytes → Type 0
IsText t = (more : Bytes) → valid (t ++ more) ≡ valid more

-- The bytes after the first of a character are not ASCII.
abbrev GivesHigh : Tail → Type 0
GivesHigh (complete got rest) = IsHigh got
GivesHigh (broken rest) = Unit

tail-GivesHigh : (need lo hi : ℕ) (bs : Bytes) → 128 ≤ lo → GivesHigh (tail need lo hi bs)
unfolding tail
tail-GivesHigh zero lo hi bs h = tt
tail-GivesHigh (suc need) lo hi [] h = tt
tail-GivesHigh (suc need) lo hi (b ∷ bs) h =
    go (ltb b lo || ltb hi b) refl (tail need 0x80 0xbf bs)
      (tail-GivesHigh need 0x80 0xbf bs (omega arith))
  where
    go :
        (c : Bool)
        → (ltb b lo || ltb hi b) ≡ c
        → (t : Tail) → GivesHigh t
        → GivesHigh (if c then broken (b ∷ bs) else grow b t)
    go true e t k = tt
    go false e (complete got rest) k = (ground arith, k)
    go false e (broken rest) k = tt

abbrev HasHighBound : Option (ℕ × ℕ × ℕ) → Type 0
HasHighBound none = Unit
HasHighBound (some (need, lo, hi)) = 128 ≤ lo

lead-HasHighBound : (c : ℕ) → HasHighBound (lead c)
unfolding lead
lead-HasHighBound c = elim (Bool-cases (leb 0xc2 c && leb c 0xdf)) [
  | inl e ↦ rw e (omega arith)
  | inr e ↦ elim (Bool-cases (leb 0xe0 c && leb c 0xef)) [
    | inl d ↦ elim (Bool-cases (c == 0xe0)) [
      | inl b ↦ rw (e, d, b) (omega arith)
      | inr b ↦ rw (e, d, b) (omega arith)
    ]
    | inr d ↦ elim (Bool-cases (leb 0xf0 c && leb c 0xf4)) [
      | inl a ↦ elim (Bool-cases (c == 0xf0)) [
        | inl b ↦ rw (e, d, a, b) (omega arith)
        | inr b ↦ rw (e, d, a, b) (omega arith)
      ]
      | inr a ↦ rw (e, d, a) tt
    ]
  ]
]

-- A first byte that is not ASCII leads bytes that are not either.
pub next_char-IsHigh :
    (c : ℕ) (cs got rest : Bytes) → 128 ≤ c → next_char c cs ≡ complete got rest → IsHigh got
unfolding next_char
next_char-IsHigh c cs got rest h e =
    let high : ltb c 0x80 ≡ false = ground arith in
    let led : led_by c cs (lead c) ≡ complete got rest = rw high at e in
    subst GivesHigh led (bytes (lead c) (lead-HasHighBound c))
  where
    bytes : (l : Option (ℕ × ℕ × ℕ)) → HasHighBound l → GivesHigh (led_by c cs l)
    bytes none k = tt
    bytes (some (need, lo, hi)) k = grown (tail need lo hi cs) (tail-GivesHigh need lo hi cs k)
      where
        grown : (t : Tail) → GivesHigh t → GivesHigh (grow c t)
        grown (complete got rest) g = (h, g)
        grown (broken rest) g = tt
