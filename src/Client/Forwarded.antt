-- ===== src/Client/Forwarded.antt =====
-- internal/clientip/clientip.go: the forwarded addresses of a request, and its client's address. The
-- header is the joined text of its values.
use pages.Client.Address.{Addr, as_16, is_4, is_4_in_6, not_empty, parse_ip, unmap}
use pages.Client.Policy.{Policy, Prefix, in_prefix}
use pages.Common.{
  Bool, List, Option, Text, [], false, if◌then◌else◌, none, not, some, suc, zero, ℕ, ◌++◌, ◌==◌,
  ◌||◌, ◌∷◌,
}

-- A subnet that an address is in, each in the family of the subnet.
unfoldable pub in_subnet : Addr → Prefix → Bool
in_subnet ip s =
    if is_4 s.base
    then (if is_4 ip
        then in_prefix s.base s.bits ip
        else (if is_4_in_6 ip then in_prefix s.base s.bits (unmap ip) else false))
    else (if is_4 ip then in_prefix s.base s.bits (as_16 ip) else in_prefix s.base s.bits ip)

unfoldable pub in_any : Addr → List Prefix → Bool
unfolding in_subnet
in_any ip [] = false
in_any ip (s ∷ ss) = in_subnet ip s || in_any ip ss

-- `Trusts`
unfoldable pub trusts : (Text → Option ℕ) → Policy → Text → ℕ → Bool
unfolding parse_ip in_any
trusts parse_v6 p addr hop =
    if p.disabled || not (hop == 0)
    then false
    else elim (parse_ip parse_v6 addr) [ none ↦ false | some ip ↦ in_any ip p.subnets ]

abbrev pub spaces : ℕ → Text
spaces zero = []
spaces (suc n) = 32 ∷ spaces n

-- `list = append(list, header[start:end])`, unless the entry is empty.
abbrev pub keep : Text → List Text → List Text
keep [] more = more
keep (c ∷ cs) more = (c ∷ cs) ∷ more

-- The loop of `ForwardedFor` over the header from its end: `entry` is `header[start:end]`, and `gap`
-- spaces stand before it.
unfoldable pub scan : Text → Text → ℕ → List Text
scan [] entry gap = keep entry []
scan (c ∷ cs) entry gap =
    let wider = scan cs entry (suc gap) in
    let fresh = scan cs [] 0 in
    let longer = scan cs (c ∷ spaces gap ++ entry) 0 in
    if c == 32
    then (if not (not_empty entry) then fresh else wider)
    else (if c == 44 then keep entry fresh else longer)

-- The text backwards, before another.
abbrev pub rev_onto : Text → Text → Text
rev_onto [] e = e
rev_onto (c ∷ cs) e = rev_onto cs (c ∷ e)

-- `ForwardedFor`
unfoldable pub forwarded_for : Text → List Text
unfolding scan
forwarded_for header = scan (rev_onto header []) [] 0

-- The loop of `ClientIP`, from a hop.
unfoldable pub client_from : (Text → Option ℕ) → Policy → ℕ → Text → List Text → Text
unfolding trusts
client_from parse_v6 p hop addr [] = addr
client_from parse_v6 p hop addr (b ∷ addrs) =
    let rest = client_from parse_v6 p (suc hop) b addrs in
    if not (trusts parse_v6 p addr hop) then addr else rest

-- `ClientIP`, of the peer and the header.
unfoldable pub client_ip : (Text → Option ℕ) → Policy → Text → Text → Text
unfolding client_from forwarded_for
client_ip parse_v6 p remote header = client_from parse_v6 p 0 remote (forwarded_for header)
