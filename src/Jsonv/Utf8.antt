-- ===== src/Jsonv/Utf8.antt =====
-- internal/jsonv/jsonv.go: valid UTF-8, `DecodeUTF8`, and what the package uses of `unicode/utf8`.
use pages.Common.{
  Bool, List, Option, [], false, if◌then◌else◌, leb, length, ltb, none, some, suc, true, zero, ℕ,
  ◌&&◌, ◌++◌, ◌==◌, ◌||◌, ◌∷◌,
}

abbrev pub Bytes : Type 0
Bytes = List ℕ

-- What a first byte that is not ASCII asks for: how many bytes follow, and the bounds of the next one.
unfoldable pub lead : ℕ → Option (ℕ × ℕ × ℕ)
lead c =
    if leb 0xc2 c && leb c 0xdf
    then some (1, 0x80, 0xbf)
    else if leb 0xe0 c && leb c 0xef
    then some (2, if c == 0xe0 then 0xa0 else 0x80, if c == 0xed then 0x9f else 0xbf)
    else if leb 0xf0 c && leb c 0xf4
    then some (3, if c == 0xf0 then 0x90 else 0x80, if c == 0xf4 then 0x8f else 0xbf)
    else none

-- What follows a first byte: the bytes of the sequence where it is complete, and where the loop
-- stops.
pub data Tail : Type 0 where
  complete : Bytes → Bytes → Tail
  broken : Bytes → Tail

abbrev pub grow : ℕ → Tail → Tail
grow b (complete got rest) = complete (b ∷ got) rest
grow b (broken rest) = broken rest

unfoldable pub tail : ℕ → ℕ → ℕ → Bytes → Tail
tail zero lo hi bs = complete [] bs
tail (suc need) lo hi [] = broken []
tail (suc need) lo hi (b ∷ bs) =
    let more = grow b (tail need 0x80 0xbf bs) in
    if ltb b lo || ltb hi b then broken (b ∷ bs) else more

-- The sequence that a first byte leads.
abbrev pub led_by : ℕ → Bytes → Option (ℕ × ℕ × ℕ) → Tail
led_by c cs none = broken cs
led_by c cs (some (need, lo, hi)) = grow c (tail need lo hi cs)

-- The character at the front of a text: its bytes and what follows, or where the loop stops.
unfoldable pub next_char : ℕ → Bytes → Tail
next_char c cs = if ltb c 0x80 then complete (c ∷ []) cs else led_by c cs (lead c)

-- U+FFFD
abbrev pub replacement : Bytes
replacement = 0xef ∷ 0xbf ∷ 0xbd ∷ []

-- `utf8.Valid`, with as many rounds as there are bytes.
unfoldable pub valid_from : ℕ → Bytes → Bool
unfolding next_char
valid_from fuel [] = true
valid_from zero (c ∷ cs) = false
valid_from (suc fuel) (c ∷ cs) = elim (next_char c cs) [
  | complete got rest ↦ valid_from fuel rest
  | broken rest ↦ false
]

unfoldable pub valid : Bytes → Bool
unfolding valid_from
valid s = valid_from (length s) s

-- `strings.ToValidUTF8(s, "\uFFFD")`: each run of bytes that are in no character is replaced. `in_run`
-- says that such a run is under way.
unfoldable pub to_valid_from : ℕ → Bool → Bytes → Bytes
unfolding next_char
to_valid_from fuel in_run [] = []
to_valid_from zero in_run (c ∷ cs) = []
to_valid_from (suc fuel) in_run (c ∷ cs) = elim (next_char c cs) [
  | complete got rest ↦ got ++ to_valid_from fuel false rest
  | broken _ ↦ (if in_run then [] else replacement) ++ to_valid_from fuel true cs
]

unfoldable pub to_valid : Bytes → Bytes
unfolding to_valid_from
to_valid s = to_valid_from (length s) false s

-- The loop of `DecodeUTF8`.
unfoldable pub decode_from : ℕ → Bytes → Bytes
unfolding next_char
decode_from fuel [] = []
decode_from zero (c ∷ cs) = []
decode_from (suc fuel) (c ∷ cs) = elim (next_char c cs) [
  | complete got rest ↦ got ++ decode_from fuel rest
  | broken rest ↦ replacement ++ decode_from fuel rest
]

-- `DecodeUTF8`
unfoldable pub decode_utf8 : Bytes → Bytes
unfolding valid decode_from
decode_utf8 b = if valid b then b else decode_from (length b) b
