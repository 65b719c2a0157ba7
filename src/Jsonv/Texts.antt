-- ===== src/Jsonv/Texts.antt =====
-- internal/jsonv/jsonv.go: string literals, read and written.
use pages.Common.{
  Bool, Option, [], if◌then◌else◌, leb, length, ltb, none, not, some, suc, zero, ℕ, ◌%◌, ◌&&◌, ◌*◌,
  ◌++◌, ◌+◌, ◌-◌, ◌/◌, ◌==◌, ◌||◌, ◌∷◌,
}
use pages.Jsonv.Utf8.{Bytes, broken, complete, next_char, replacement, to_valid, valid}
use pages.Jsonv.Values.{
  Result, bad_control, bad_escape, bad_unicode, err, ok, out_of_fuel, unterminated_string, ◌>>=◌,
}

-- `utf16.IsSurrogate`
abbrev pub is_surrogate : ℕ → Bool
is_surrogate r = leb 0xd800 r && ltb r 0xe000

-- `utf8.AppendRune` of a rune below 2^16, or a surrogate in the generalized form of `appendWTF8`.
unfoldable pub rune_bytes : ℕ → Bytes
rune_bytes r =
    if ltb r 0x80
    then r ∷ []
    else if ltb r 0x800
    then (0xc0 + r / 0x40) ∷ (0x80 + r % 0x40) ∷ []
    else if ltb r 0x10000
    then (0xe0 + r / 0x1000) ∷ (0x80 + r / 0x40 % 0x40) ∷ (0x80 + r % 0x40) ∷ []
    else (0xf0 + r / 0x40000)
      ∷ (0x80 + r / 0x1000 % 0x40)
      ∷ (0x80 + r / 0x40 % 0x40)
      ∷ (0x80 + r % 0x40)
      ∷ []

-- `hexVal`
unfoldable pub hex_val : ℕ → Option ℕ
hex_val c =
    if leb b'0' c && leb c b'9'
    then some (c - b'0')
    else if leb b'a' c && leb c b'f'
    then some (c - b'a' + 10)
    else if leb b'A' c && leb c b'F'
    then some (c - b'A' + 10)
    else none

-- `r<<4 | h`
abbrev pub next_digit : Option ℕ → ℕ → Option ℕ
next_digit none c = none
next_digit (some r) c = elim (hex_val c) [ none ↦ none | some h ↦ some (r * 16 + h) ]

-- `hex4`
unfoldable pub hex4 : Bytes → Option (ℕ × Bytes)
unfolding hex_val
hex4 (a ∷ b ∷ c ∷ d ∷ rest) =
    elim (next_digit (next_digit (next_digit (next_digit (some 0) a) b) c) d) [
      | none ↦ none
      | some r ↦ some (r, rest)
    ]
hex4 _ = none

-- The escape of a low surrogate, where one follows.
unfoldable pub low_after : Bytes → Option (ℕ × Bytes)
unfolding hex4
low_after (a ∷ b ∷ rest) =
    if a == b'\\' && b == b'u'
    then elim (hex4 rest) [
      | none ↦ none
      | some (lo, after) ↦ if leb 0xdc00 lo && leb lo 0xdfff then some (lo, after) else none
    ]
    else none
low_after _ = none

-- What an escape of a surrogate writes: the character of a pair, or what stands for a lone one.
unfoldable pub surrogate : Bool → ℕ → Bytes → Bytes × Bytes
unfolding low_after rune_bytes
surrogate wtf8 r rest = elim (if ltb r 0xdc00 then low_after rest else none) [
  | some (lo, after) ↦ (rune_bytes (0x10000 + (r - 0xd800) * 0x400 + (lo - 0xdc00)), after)
  | none ↦ (if wtf8 then rune_bytes r else replacement, rest)
]

unfoldable pub unicode_escape : Bool → Bytes → Result (Bytes × Bytes)
unfolding hex4 surrogate
unicode_escape wtf8 es = elim (hex4 es) [
  | none ↦ err bad_unicode es
  | some (r, rest) ↦ if is_surrogate r then ok (surrogate wtf8 r rest) else ok (rune_bytes r, rest)
]

-- What stands after a backslash: the bytes that it writes, and what follows.
unfoldable pub unescape : Bool → Bytes → Result (Bytes × Bytes)
unfolding unicode_escape
unescape wtf8 [] = err unterminated_string []
unescape wtf8 (e ∷ es) =
    if e == b'"' || e == b'\\' || e == b'/'
    then ok (e ∷ [], es)
    else if e == b'b'
    then ok (8 ∷ [], es)
    else if e == b'f'
    then ok (12 ∷ [], es)
    else if e == b'n'
    then ok (10 ∷ [], es)
    else if e == b'r'
    then ok (13 ∷ [], es)
    else if e == b't'
    then ok (9 ∷ [], es)
    else if e == b'u'
    then unicode_escape wtf8 es
    else err bad_escape (e ∷ es)

-- `b.Write(out)`
abbrev pub prepend : Bytes → Result (Bytes × Bytes) → Result (Bytes × Bytes)
prepend out (ok (s, rest)) = ok (out ++ s, rest)
prepend out (err m rest) = err m rest

-- The loop of `str` that reads escapes.
unfoldable pub escapes : Bool → ℕ → Bytes → Result (Bytes × Bytes)
unfolding unescape
escapes wtf8 fuel [] = err unterminated_string []
escapes wtf8 zero (c ∷ cs) = err out_of_fuel (c ∷ cs)
escapes wtf8 (suc fuel) (c ∷ cs) =
    let plain = prepend (c ∷ []) (escapes wtf8 fuel cs) in
    let escaped = unescape wtf8 cs >>= λ (out, rest). prepend out (escapes wtf8 fuel rest) in
    if c == b'"'
    then ok ([], cs)
    else if ltb c 0x20
    then err bad_control (c ∷ cs)
    else if c == b'\\'
    then escaped
    else plain

-- The loop of the fast path: the bytes up to a quote, a backslash or a control character.
unfoldable pub plain_prefix : Bytes → Bytes × Bytes
plain_prefix [] = ([], [])
plain_prefix (c ∷ cs) =
    let (start, rest) = plain_prefix cs in
    if c == b'"' || c == b'\\' || ltb c 0x20 then ([], c ∷ cs) else (c ∷ start, rest)

abbrev pub cleaned : Bool → Bytes × Bytes → Result (Bytes × Bytes)
cleaned wtf8 (s, rest) = if not wtf8 && not (valid s) then ok (to_valid s, rest) else ok (s, rest)

-- What `str` does where the fast path stops: a quote ends the literal, and the slow loop takes over
-- from anything else.
unfoldable pub after_plain : Bool → Bytes → Bytes → Result (Bytes × Bytes)
unfolding valid to_valid
after_plain wtf8 start [] = prepend start (escapes wtf8 0 []) >>= cleaned wtf8
after_plain wtf8 start (c ∷ cs) =
    if c == b'"'
    then (if valid start then ok (start, cs) else ok (to_valid start, cs))
    else prepend start (escapes wtf8 (suc (length cs)) (c ∷ cs)) >>= cleaned wtf8

-- `str`, after the opening quote.
unfoldable pub string_literal : Bool → Bytes → Result (Bytes × Bytes)
unfolding plain_prefix after_plain
string_literal wtf8 bs = let (start, rest) = plain_prefix bs in after_plain wtf8 start rest

-- `hexDigits[n]`
abbrev pub hex_digit : ℕ → ℕ
hex_digit n = if ltb n 10 then b'0' + n else b'a' + (n - 10)

-- What `WriteString` writes for a byte.
unfoldable pub escape_byte : ℕ → Bytes
escape_byte c =
    if leb 0x20 c && not (c == b'"') && not (c == b'\\')
    then c ∷ []
    else if c == b'"'
    then b'\\' ∷ b'"' ∷ []
    else if c == b'\\'
    then b'\\' ∷ b'\\' ∷ []
    else if c == 8
    then b'\\' ∷ b'b' ∷ []
    else if c == 12
    then b'\\' ∷ b'f' ∷ []
    else if c == 10
    then b'\\' ∷ b'n' ∷ []
    else if c == 13
    then b'\\' ∷ b'r' ∷ []
    else if c == 9
    then b'\\' ∷ b't' ∷ []
    else b'\\' ∷ b'u' ∷ b'0' ∷ b'0' ∷ hex_digit (c / 16) ∷ hex_digit (c % 16) ∷ []

-- The loop of `WriteString`.
unfoldable pub escape_all : Bytes → Bytes
unfolding escape_byte
escape_all [] = []
escape_all (c ∷ cs) = escape_byte c ++ escape_all cs

-- The escape of a surrogate in its generalized form, where a text starts with one.
unfoldable pub lone_surrogate : Bytes → Option (Bytes × Bytes)
lone_surrogate (a ∷ b ∷ c ∷ rest) =
    if a == 0xed && leb 0xa0 b && leb b 0xbf && leb 0x80 c && leb c 0xbf
    then (let r = 0xd000 + b % 0x40 * 0x40 + c % 0x40 in
        some (
          b'\\'
              ∷ b'u'
              ∷ b'd'
              ∷ hex_digit (r / 0x100 % 16)
              ∷ hex_digit (r / 16 % 16)
              ∷ hex_digit (r % 16)
              ∷ [],
          rest,
        ))
    else none
lone_surrogate _ = none

-- The loop of `writeStringSlow`.
unfoldable pub escape_slow : ℕ → Bytes → Bytes
unfolding escape_byte lone_surrogate next_char
escape_slow fuel [] = []
escape_slow zero (c ∷ cs) = []
escape_slow (suc fuel) (c ∷ cs) =
    let plain = escape_byte c ++ escape_slow fuel cs in
    let char : Bytes = elim (next_char c cs) [
      | complete got rest ↦ got ++ escape_slow fuel rest
      | broken _ ↦ replacement ++ escape_slow fuel cs
    ] in
    let wide : Bytes = elim (lone_surrogate (c ∷ cs)) [
      | some (out, rest) ↦ out ++ escape_slow fuel rest
      | none ↦ char
    ] in
    if ltb c 0x80 then plain else wide

-- `WriteString`, and `Quote`.
unfoldable pub quote : Bytes → Bytes
unfolding valid escape_all escape_slow
quote s = b'"' ∷ (if valid s then escape_all s else escape_slow (length s) s) ++ b'"' ∷ []
