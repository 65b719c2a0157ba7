-- ===== src/Client/Address.antt =====
-- internal/clientip/clientip.go: addresses as package ipaddr.js reads them. `netip.ParseAddr` of an
-- IPv6 address, without its zone, is a parameter.
use pages.Common.{
  Bool, List, Option, Text, [], false, if◌then◌else◌, leb, ltb, none, some, true, ℕ, ◌%◌, ◌&&◌, ◌*◌,
  ◌+◌, ◌-◌, ◌/◌, ◌==◌, ◌^◌, ◌||◌, ◌∷◌,
}
use pages.Common.Strings.{only_digits, has_char, split_at}
use mathlib.Core.Option

-- `netip.Addr`: 32 or 128 bits.
pub data Addr : Type 0 where
  v4 v6 : ℕ → Addr

abbrev pub is_4 : Addr → Bool
is_4 (v4 n) = true
is_4 (v6 n) = false

-- `Is4In6`
abbrev pub is_4_in_6 : Addr → Bool
is_4_in_6 (v4 n) = false
is_4_in_6 (v6 n) = n / 2 ^ 32 == 0xffff

-- `Unmap`
abbrev pub unmap : Addr → Addr
unmap (v4 n) = v4 n
unmap (v6 n) = if n / 2 ^ 32 == 0xffff then v4 (n % 2 ^ 32) else v6 n

-- `AddrFrom16(ip.As16())`
abbrev pub as_16 : Addr → Addr
as_16 (v4 n) = v6 (0xffff * 2 ^ 32 + n)
as_16 (v6 n) = v6 n

-- The value of a digit of a radix of at most sixteen; a letter counts from ten.
abbrev pub digit_value : ℕ → Option ℕ
digit_value c =
    if leb 48 c && leb c 57
    then some (c - 48)
    else (if leb 97 c && leb c 102
        then some (c - 87)
        else (if leb 65 c && leb c 70 then some (c - 55) else none))

-- The loop of `parseIntAuto`, which stops at what is no digit of the radix and at a large number.
unfoldable pub int_from : ℕ → ℕ → Text → ℕ
int_from base n [] = n
int_from base n (c ∷ cs) = elim (digit_value c) [
  | none ↦ n
  | some d ↦
      let more = n * base + d in
      let rest = int_from base more cs in
      if leb base d then n else (if ltb (2 ^ 40) more then more else rest)
]

-- `parseIntAuto`
unfoldable pub parse_int_auto : Text → ℕ
unfolding int_from
parse_int_auto [] = 0
parse_int_auto (c ∷ []) = if c == 48 then int_from 8 0 (c ∷ []) else int_from 10 0 (c ∷ [])
parse_int_auto (c ∷ d ∷ cs) =
    if c == 48 && d == 120
    then int_from 16 0 cs
    else (if c == 48 then int_from 8 0 (c ∷ d ∷ cs) else int_from 10 0 (c ∷ d ∷ cs))

abbrev pub is_hex_digit : ℕ → Bool
is_hex_digit c = leb 48 c && leb c 57 || leb 97 c && leb c 102 || leb 65 c && leb c 70

unfoldable pub all_hex : Text → Bool
all_hex [] = true
all_hex (c ∷ cs) = is_hex_digit c && all_hex cs

abbrev pub not_empty : Text → Bool
not_empty [] = false
not_empty (c ∷ cs) = true

-- `0x` and hexadecimal digits, of either case.
abbrev pub is_hex : Text → Bool
is_hex (z ∷ x ∷ cs) = z == 48 && (x == 120 || x == 88) && not_empty cs && all_hex cs
is_hex _ = false

-- `longValue`: a part of `fourOctet`.
unfoldable pub is_part : Text → Bool
unfolding only_digits all_hex
is_part s = not_empty s && only_digits s || is_hex s

-- Four parts of at most eight bits each.
unfoldable pub four_octets : Text → Text → Text → Text → Option Addr
unfolding parse_int_auto
four_octets a b c d =
    let p = parse_int_auto a in
    let q = parse_int_auto b in
    let r = parse_int_auto c in
    let s = parse_int_auto d in
    if ltb 255 p || ltb 255 q || ltb 255 r || ltb 255 s
    then none
    else some (v4 (p * 2 ^ 24 + q * 2 ^ 16 + r * 2 ^ 8 + s))

-- One number of at most 32 bits.
unfoldable pub long_value : Text → Option Addr
unfolding parse_int_auto
long_value s = if ltb 0xffffffff (parse_int_auto s) then none else some (v4 (parse_int_auto s))

-- The parts of `fourOctet`, if the text has this form.
unfoldable pub octets : Text × List Text → Option (Text × Text × Text × Text)
unfolding is_part
octets (a, b ∷ c ∷ d ∷ []) =
    if is_part a && is_part b && is_part c && is_part d then some (a, b, c, d) else none
octets _ = none

-- `parseIP`
unfoldable pub parse_ip : (Text → Option ℕ) → Text → Option Addr
unfolding split_at octets four_octets is_part long_value has_char
parse_ip parse_v6 s =
    let v6_of = (if has_char 58 s then Option.map v6 (parse_v6 s) else none) in
    let other = (if is_part s then long_value s else v6_of) in
    elim (octets (split_at 46 s)) [ some (a, b, c, d) ↦ four_octets a b c d | none ↦ other ]
