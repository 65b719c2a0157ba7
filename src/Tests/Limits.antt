-- ===== src/Tests/Limits.antt =====
-- internal/ratelimit with a budget of two hits a second.
use pages.Common.{
  List, Option, Text, [], arith, codes, false, if◌then◌else◌, none, refl, some, text_eq, true, ℕ,
  ◌∷◌, ◌≡◌,
}
use pages.Ratelimit.Budget.{answers, answers_fresh, within_budget}
use pages.Ratelimit.Ip.{carried, ip_key, is_dotted}
use pages.Ratelimit.Limiter.{Options, Windows, hit, lookup}
use pages.Ratelimit.Network.{ip_key-network}

abbrev opts : Options
opts = record { limit = 2; window_ms = 1000 }

abbrev key : Text
key = codes "k"

abbrev running : Windows
running = (key, record { hits = 2; reset_at = 1500 }) ∷ []

third_refused : (hit opts key 1400 1400 running).0.allowed ≡ false
unfolding hit
third_refused = refl

new_window : (hit opts key 1500 1500 running).0.allowed ≡ true
unfolding hit
new_window = refl

answers_fresh_example :
    answers opts key (10 ∷ 20 ∷ 900 ∷ []) [] ≡ within_budget 2 0 (10 ∷ 20 ∷ 900 ∷ [])
answers_fresh_example =
    answers_fresh opts key 10 (20 ∷ 900 ∷ []) [] (unfold lookup in refl)
      (omega arith, (omega arith, tt))

read_addr : Text → Option (List ℕ)
unfolding text_eq
read_addr t =
    if text_eq t (codes "2001:db8::1")
    then some (0x2001 ∷ 0xdb8 ∷ 0 ∷ 0 ∷ 0 ∷ 0 ∷ 0 ∷ 1 ∷ [])
    else if text_eq t (codes "2001:db8:0:ff::2")
    then some (0x2001 ∷ 0xdb8 ∷ 0 ∷ 0xff ∷ 0 ∷ 0 ∷ 0 ∷ 2 ∷ [])
    else none

network_key : ip_key read_addr (codes "2001:db8::1") 56 ≡ codes "2001:db8::/56"
unfolding ip_key read_addr
network_key = refl

ip_key-network_example :
    ip_key read_addr (codes "2001:db8::1") 56 ≡ ip_key read_addr (codes "2001:db8:0:ff::2") 56
ip_key-network_example =
    ip_key-network read_addr (codes "2001:db8::1") (codes "2001:db8:0:ff::2") 0x2001 0xdb8 0 0 0xff
      0 0 0 1 0 0 0 2 (unfold read_addr in refl) (unfold read_addr in refl)
      (unfold carried is_dotted in refl) (unfold carried is_dotted in refl) refl
