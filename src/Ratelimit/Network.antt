-- ===== src/Ratelimit/Network.antt =====
-- The addresses of one IPv6 network share a key.
use pages.Common.{List, Option, Text, [], ap, codes, none, refl, some, ℕ, ◌++◌, ◌/◌, ◌∷◌, ◌≡◌}
use pages.Ratelimit.Ip.{carried, digits, ip_key, ipv6_text, is_dotted, network}

network_masks :
    (a b c d d' e f g h e' f' g' h' : ℕ)
    → d / 256 ≡ d' / 256
    → network 56 0 (a ∷ b ∷ c ∷ d ∷ e ∷ f ∷ g ∷ h ∷ [])
      ≡ network 56 0 (a ∷ b ∷ c ∷ d' ∷ e' ∷ f' ∷ g' ∷ h' ∷ [])
unfolding network
network_masks a b c d d' e f g h e' f' g' h' same = rw same refl

-- Two IPv6 addresses that agree in the first 56 bits, and that carry no IPv4 address, share a key:
-- a client does not get a new budget by moving within its /56 network.
pub ip_key-network :
    (parse_addr : Text → Option (List ℕ)) (ip jp : Text) (a b c d d' e f g h e' f' g' h' : ℕ)
    → parse_addr ip ≡ some (a ∷ b ∷ c ∷ d ∷ e ∷ f ∷ g ∷ h ∷ [])
    → parse_addr jp ≡ some (a ∷ b ∷ c ∷ d' ∷ e' ∷ f' ∷ g' ∷ h' ∷ [])
    → carried (is_dotted ip) (a ∷ b ∷ c ∷ d ∷ e ∷ f ∷ g ∷ h ∷ []) ≡ none
    → carried (is_dotted jp) (a ∷ b ∷ c ∷ d' ∷ e' ∷ f' ∷ g' ∷ h' ∷ []) ≡ none
    → d / 256 ≡ d' / 256
    → ip_key parse_addr ip 56 ≡ ip_key parse_addr jp 56
unfolding ip_key
ip_key-network parse_addr ip jp a b c d d' e f g h e' f' g' h' p q plain_p plain_q same =
    rw (ip_key, p, q, plain_p, plain_q)
      (ap (λ ws. ipv6_text ws ++ codes "/" ++ digits 10 3 56)
        (network_masks a b c d d' e f g h e' f' g' h' same))
