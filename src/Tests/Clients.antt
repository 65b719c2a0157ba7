-- ===== src/Tests/Clients.antt =====
-- internal/clientip with the default setting, and addresses of IPv6 that are only the loopback.
use pages.Client.Address.{parse_ip, v4, v6}
use pages.Client.Entries.{entries, forwarded_for-entries, pieces}
use pages.Client.Forwarded.{client_ip, forwarded_for, rev_onto, trusts}
use pages.Client.Masks.{prefix_from_mask_iff}
use pages.Client.Policy.{
  Policy, compiled, parse_notation, parse_policy, prefix_from_mask, refused, unsupported,
}
use pages.Client.Trust.{client_ip-nearest, nearest}
use pages.Common.{
  Option, Text, [], arith, codes, false, if◌then◌else◌, none, refl, some, text_eq, ℕ, ◌*◌, ◌+◌, ◌-◌,
  ◌^◌, ◌↔◌, ◌∷◌, ◌≡◌, ◌≤◌,
}
use pages.Common.Strings.{split_at}

abbrev read_v6 : Text → Option ℕ
read_v6 s = if text_eq s (codes "::1") then some 1 else none

abbrev local : Policy
local = record {
  disabled = false;
  subnets = record { base = v4 (127 * 2 ^ 24); bits = 8 } ∷ record { base = v6 1; bits = 128 } ∷ [];
}

default_policy : parse_policy read_v6 (codes " ") ≡ compiled local
unfolding parse_policy text_eq
default_policy = refl

no_hop_counts : parse_policy read_v6 (codes "loopback, 2") ≡ refused unsupported
unfolding parse_policy text_eq
no_hop_counts = refl

netmask :
    parse_notation read_v6 (codes "10.0.0.9/255.0.0.0")
    ≡ compiled (record { base = v4 (10 * 2 ^ 24); bits = 8 })
unfolding parse_notation text_eq prefix_from_mask
netmask = refl

octal : parse_ip read_v6 (codes "010.0x1f.0.1") ≡ some (v4 (8 * 2 ^ 24 + 31 * 2 ^ 16 + 1))
unfolding parse_ip
octal = refl

abbrev header : Text
header = codes "6.6.6.6,, 1.2.3.4 "

behind_proxy : client_ip read_v6 local (codes "127.0.0.1") header ≡ codes "1.2.3.4"
unfolding client_ip text_eq
behind_proxy = refl

direct : client_ip read_v6 local (codes "9.9.9.9") header ≡ codes "9.9.9.9"
unfolding client_ip text_eq
direct = refl

forwarded_for-entries_example :
    forwarded_for header ≡ entries (pieces (split_at 44 (rev_onto header [])))
forwarded_for-entries_example = forwarded_for-entries header

client_ip-nearest_example : client_ip read_v6 local (codes "127.0.0.1") header ≡ (
    if trusts read_v6 local (codes "127.0.0.1") 0
    then nearest (codes "127.0.0.1") (entries (pieces (split_at 44 (rev_onto header []))))
    else codes "127.0.0.1")
client_ip-nearest_example = client_ip-nearest read_v6 local (codes "127.0.0.1") header

prefix_from_mask_iff_example :
    (prefix_from_mask 0xfffff000 ≡ some 20) ↔ ((20 ≤ 32) × (0xfffff000 ≡ 2 ^ 32 - 2 ^ (32 - 20)))
prefix_from_mask_iff_example = prefix_from_mask_iff 0xfffff000 20 (omega arith)
