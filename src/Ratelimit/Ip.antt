-- ===== src/Ratelimit/Ip.antt =====
-- internal/ratelimit/ratelimit.go: the key of a client's address. `net/netip` reads the address: a
-- parameter answers the eight words of an IPv6 address, and nothing for any other text.
use pages.Common.{
  Bool, List, Option, Text, [], codes, drop, false, if◌then◌else◌, ltb, min, none, some, suc, take,
  zero, ℕ, ◌%◌, ◌&&◌, ◌*◌, ◌++◌, ◌+◌, ◌-◌, ◌/◌, ◌==◌, ◌^◌, ◌||◌, ◌∷◌,
}

-- A number's digits in a base, at most `fuel` of them: three for a byte in decimal, four for a word
-- in hexadecimal.
unfoldable pub digits : ℕ → ℕ → ℕ → Text
digits base zero n = []
digits base (suc fuel) n =
    let low = (if ltb (n % base) 10 then n % base + 48 else n % base + 87) ∷ [] in
    let high = digits base fuel (n / base) in if ltb n base then low else high ++ low

-- `strings.Join` of the words in hexadecimal, by `:`.
unfoldable pub hex : List ℕ → Text
unfolding digits
hex [] = []
hex (w ∷ []) = digits 16 4 w
hex (w ∷ v ∷ ws) = digits 16 4 w ++ codes ":" ++ hex (v ∷ ws)

abbrev pub zeros : List ℕ → ℕ
zeros [] = 0
zeros (w ∷ ws) = if w == 0 then 1 + zeros ws else 0

-- The longest run of two or more zero words, the first on a tie: its start and length. The first
-- `skip` words belong to the last run, and `index` words went before.
unfoldable pub longest_run : ℕ → ℕ → List ℕ → Option (ℕ × ℕ) → Option (ℕ × ℕ)
longest_run index skip [] best = best
longest_run index (suc skip) (w ∷ ws) best = longest_run (index + 1) skip ws best
longest_run index zero (w ∷ ws) best =
    let run = zeros (w ∷ ws) in
    let longer : Bool = elim best [ none ↦ ltb 1 run | some (_, len) ↦ ltb len run ] in
    longest_run (index + 1) (run - 1) ws (if longer then some (index, run) else best)

-- `ipv6Text`
unfoldable pub ipv6_text : List ℕ → Text
unfolding hex longest_run
ipv6_text words = elim (longest_run 0 0 words none) [
  | none ↦ hex words
  | some (best, len) ↦ hex (take best words) ++ codes "::" ++ hex (drop (best + len) words)
]

-- The words of the network: `subnet` bits are kept, the first word standing at `index`.
unfoldable pub network : ℕ → ℕ → List ℕ → List ℕ
network subnet index [] = []
network subnet index (w ∷ ws) =
    let keep = min 16 (subnet - index * 16) in
    (if keep == 0 then 0 else w / 2 ^ (16 - keep) * 2 ^ (16 - keep)) ∷ network subnet (index + 1) ws

-- A dot before the zone of the address.
unfoldable pub is_dotted : Text → Bool
is_dotted [] = false
is_dotted (c ∷ cs) = if c == 37 then false else c == 46 || is_dotted cs

-- The IPv4 address that an IPv6 address carries, as its two words.
unfoldable pub carried : Bool → List ℕ → Option (ℕ × ℕ)
carried dotted (a ∷ b ∷ c ∷ d ∷ e ∷ f ∷ g ∷ h ∷ []) =
    let zero_prefix = a == 0 && b == 0 && c == 0 && d == 0 && e == 0 in
    if zero_prefix && (f == 0xffff || dotted && f == 0) then some (g, h) else none
carried dotted _ = none

unfoldable pub ipv4_text : ℕ → ℕ → Text
unfolding digits
ipv4_text g h =
    digits 10 3 (g / 256)
    ++ codes "."
    ++ digits 10 3 (g % 256)
    ++ codes "."
    ++ digits 10 3 (h / 256)
    ++ codes "."
    ++ digits 10 3 (h % 256)

-- `IPKey`
unfoldable pub ip_key : (Text → Option (List ℕ)) → Text → ℕ → Text
unfolding carried ipv4_text ipv6_text network is_dotted
ip_key parse_addr ip subnet = elim (parse_addr ip) [
  | none ↦ ip
  | some words ↦ elim (carried (is_dotted ip) words) [
    | some (g, h) ↦ ipv4_text g h
    | none ↦
        if subnet == 0
        then ip
        else ipv6_text (network subnet 0 words) ++ codes "/" ++ digits 10 3 subnet
  ]
]
