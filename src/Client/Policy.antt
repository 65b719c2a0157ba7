-- ===== src/Client/Policy.antt =====
-- internal/clientip/clientip.go: the setting PAGES_TRUST_PROXY, compiled to a list of networks.
use pages.Client.Address.{Addr, is_4, is_4_in_6, not_empty, parse_ip, unmap, v4, v6}
use pages.Common.{
  Bool, List, Option, Text, [], codes, false, if◌then◌else◌, leb, ltb, map, none, not, some, suc,
  text_eq, true, zero, ℕ, ◌%◌, ◌&&◌, ◌*◌, ◌++◌, ◌+◌, ◌-◌, ◌/◌, ◌==◌, ◌^◌, ◌||◌, ◌∷◌,
}
use pages.Common.Strings.{only_digits, has_char, cut_at, decimal_value, split_at, trim_space}

-- `netip.Prefix`
pub record Prefix : Type 0 where
  pub base : Addr
  pub bits : ℕ

-- `Policy`
pub record Policy : Type 0 where
  pub disabled : Bool
  pub subnets : List Prefix

-- The refusals at startup.
pub data SettingError : Type 0 where
  unsupported invalid_address invalid_range : SettingError

pub data Compiled (A : Type 0) : Type 0 where
  compiled : A → Compiled A
  refused : SettingError → Compiled A

-- `if err != nil { return nil, err }`
infixl 5 ◌>>=◌
abbrev pub ◌>>=◌ : {A B : Type 0} → Compiled A → (A → Compiled B) → Compiled B
compiled x >>= k = k x
refused r >>= k = refused r

-- The ones at the start of a number of 32 bits, after `n` of them.
unfoldable pub leading_ones : ℕ → ℕ → ℕ → ℕ
leading_ones zero v n = n
leading_ones (suc fuel) v n =
    let more = leading_ones fuel v (suc n) in if v / 2 ^ (31 - n) % 2 == 1 then more else n

-- `prefixFromMask`; `none` is -1. The shift drops what leaves the 32 bits.
unfoldable pub prefix_from_mask : ℕ → Option ℕ
unfolding leading_ones
prefix_from_mask v =
    let n = leading_ones 32 v 0 in if not (v * 2 ^ n % 2 ^ 32 == 0) then none else some n

-- `BitLen`
abbrev pub bit_len : Addr → ℕ
bit_len (v4 n) = 32
bit_len (v6 n) = 128

-- The first `bits` bits of an address of `len` bits.
abbrev pub top_bits : ℕ → ℕ → ℕ → ℕ
top_bits len bits n = n / 2 ^ (len - bits)

-- `Masked`
abbrev pub masked : Addr → ℕ → Addr
masked (v4 n) bits = v4 (top_bits 32 bits n * 2 ^ (32 - bits))
masked (v6 n) bits = v6 (top_bits 128 bits n * 2 ^ (128 - bits))

-- `Contains`: an address of the other family is in no network.
abbrev pub in_prefix : Addr → ℕ → Addr → Bool
in_prefix (v4 n) bits (v4 m) = top_bits 32 bits n == top_bits 32 bits m
in_prefix (v6 n) bits (v6 m) = top_bits 128 bits n == top_bits 128 bits m
in_prefix _ bits _ = false

-- The text after the last slash, if any, and before it.
unfoldable pub cut_last : ℕ → Text → Text × Option Text
unfolding has_char cut_at
cut_last sep [] = ([], none)
cut_last sep (c ∷ cs) =
    let (before, after) = cut_last sep cs in
    if c == sep && not (has_char sep cs) then ([], some cs) else (c ∷ before, after)

-- The address of a mask.
abbrev pub mask_bits : Option Addr → Option ℕ
mask_bits (some (v4 m)) = prefix_from_mask m
mask_bits _ = none

-- The number of bits that a range text asks for; `none` is -1.
unfoldable pub range_bits : (Text → Option ℕ) → Addr → Text → Option ℕ
unfolding only_digits decimal_value parse_ip
range_bits parse_v6 ip text =
    if not_empty text && only_digits text
    then some (decimal_value 0 text)
    else (if is_4 ip then mask_bits (parse_ip parse_v6 text) else none)

-- The network of an address and a count of bits.
unfoldable pub make_prefix : Addr → Option ℕ → Compiled Prefix
make_prefix ip none = refused invalid_range
make_prefix ip (some bits) =
    if bits == 0 || ltb (bit_len ip) bits
    then refused invalid_range
    else compiled (record { base = masked ip bits; bits = bits })

-- A bare address that is IPv4 inside IPv6 is stored as IPv4.
abbrev pub bare : Addr → Addr
bare ip = if is_4_in_6 ip then unmap ip else ip

-- `parseNotation`
unfoldable pub parse_notation : (Text → Option ℕ) → Text → Compiled Prefix
unfolding cut_last parse_ip range_bits make_prefix
parse_notation parse_v6 note =
    let (address, range) = cut_last 47 note in
    elim (parse_ip parse_v6 address) [
      | none ↦ refused invalid_address
      | some ip ↦ elim range [
        | none ↦ make_prefix (bare ip) (some (bit_len (bare ip)))
        | some text ↦ make_prefix ip (range_bits parse_v6 ip text)
      ]
    ]

-- `namedRanges`
unfoldable pub notes_of : Text → List Text
unfolding text_eq
notes_of entry =
    if text_eq entry (codes "linklocal")
    then codes "169.254.0.0/16" ∷ codes "fe80::/10" ∷ []
    else (if text_eq entry (codes "loopback")
        then codes "127.0.0.1/8" ∷ codes "::1/128" ∷ []
        else (if text_eq entry (codes "uniquelocal")
            then codes "10.0.0.0/8"
              ∷ codes "172.16.0.0/12"
              ∷ codes "192.168.0.0/16"
              ∷ codes "fc00::/7"
              ∷ []
            else entry ∷ []))

unfoldable pub parse_notes : (Text → Option ℕ) → List Text → Compiled (List Prefix)
unfolding parse_notation
parse_notes parse_v6 [] = compiled []
parse_notes parse_v6 (note ∷ notes) =
    parse_notation parse_v6 note >>= λ p. parse_notes parse_v6 notes >>= λ ps. compiled (p ∷ ps)

unfoldable pub parse_entries : (Text → Option ℕ) → List Text → Compiled (List Prefix)
unfolding parse_notes notes_of trim_space
parse_entries parse_v6 [] = compiled []
parse_entries parse_v6 (entry ∷ entries) =
    parse_notes parse_v6 (notes_of (trim_space entry)) >>= λ ps.
    parse_entries parse_v6 entries >>= λ more. compiled (ps ++ more)

-- The lower case of an ASCII letter.
abbrev pub lower : ℕ → ℕ
lower c = if leb 65 c && leb c 90 then c + 32 else c

-- `hopCount`
unfoldable pub is_hop_count : Text → Bool
unfolding text_eq only_digits
is_hop_count s = text_eq (map lower s) (codes "true") || not_empty s && only_digits s

unfoldable pub any_hop_count : List Text → Bool
unfolding is_hop_count trim_space
any_hop_count [] = false
any_hop_count (peer ∷ peers) = is_hop_count (trim_space peer) || any_hop_count peers

-- The setting, or the default.
abbrev pub or_loopback : Text → Text
or_loopback [] = codes "loopback"
or_loopback (c ∷ cs) = c ∷ cs

-- `Parse`
unfoldable pub parse_policy : (Text → Option ℕ) → Text → Compiled Policy
unfolding trim_space split_at any_hop_count text_eq parse_entries
parse_policy parse_v6 setting =
    let peers = or_loopback (trim_space setting) in
    let (entry, entries) = split_at 44 peers in
    if any_hop_count (entry ∷ entries)
    then refused unsupported
    else (if text_eq peers (codes "false")
        then compiled (record { disabled = true; subnets = [] })
        else (parse_entries parse_v6 (entry ∷ entries) >>= λ ps.
            compiled (record { disabled = false; subnets = ps })))
