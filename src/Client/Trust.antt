-- ===== src/Client/Trust.antt =====
-- internal/clientip/clientip.go: which address a request's client has.
use pages.Client.Entries.{entries, forwarded_for-entries, pieces}
use pages.Client.Forwarded.{client_from, client_ip, forwarded_for, rev_onto, trusts}
use pages.Client.Policy.{Policy}
use pages.Common.{
  Bool, Bool-cases, List, Option, Text, [], ap, arith, false, if◌then◌else◌, inl, inr, not, refl,
  suc, true, ℕ, ◌==◌, ◌∙◌, ◌∷◌, ◌≡◌,
}
use pages.Common.Strings.{split_at}

-- The nearest forwarded address, or the peer's own.
abbrev pub nearest : Text → List Text → Text
nearest remote [] = remote
nearest remote (a ∷ addrs) = a

-- A hop behind the peer is not trusted.
trusts-later :
    (parse_v6 : Text → Option ℕ) (p : Policy) (addr : Text) (hop : ℕ)
    → trusts parse_v6 p addr (suc hop) ≡ false
unfolding trusts
trusts-later parse_v6 p addr hop =
    let behind : (suc hop == 0) ≡ false = ground arith in
    elim (Bool-cases p.disabled) [ inl d ↦ rw d refl | inr d ↦ rw (d, behind) refl ]

client_from-later :
    (parse_v6 : Text → Option ℕ) (p : Policy) (hop : ℕ) (addr : Text) (addrs : List Text)
    → client_from parse_v6 p (suc hop) addr addrs ≡ addr
unfolding client_from
client_from-later parse_v6 p hop addr [] = refl
client_from-later parse_v6 p hop addr (b ∷ addrs) = rw (trusts-later parse_v6 p addr hop) refl

chosen : (b : Bool) (x y : Text) → (if not b then x else y) ≡ (if b then y else x)
chosen true x y = refl
chosen false x y = refl

either_way : (b : Bool) (x : Text) → x ≡ (if b then x else x)
either_way true x = refl
either_way false x = refl

client_from-nearest :
    (parse_v6 : Text → Option ℕ) (p : Policy) (remote : Text) (addrs : List Text)
    → client_from parse_v6 p 0 remote addrs
      ≡ (if trusts parse_v6 p remote 0 then nearest remote addrs else remote)
unfolding client_from
client_from-nearest parse_v6 p remote [] = either_way (trusts parse_v6 p remote 0) remote
client_from-nearest parse_v6 p remote (b ∷ addrs) =
    ap (λ x. if not (trusts parse_v6 p remote 0) then remote else x)
      (client_from-later parse_v6 p 0 b addrs)
    ∙ chosen (trusts parse_v6 p remote 0) remote b

-- The client is the nearest entry of the header when the peer is a trusted proxy and the peer itself
-- otherwise, so that no other entry of the header, which a client can write, is ever used.
pub client_ip-nearest :
    (parse_v6 : Text → Option ℕ) (p : Policy) (remote header : Text)
    → client_ip parse_v6 p remote header ≡ (
        if trusts parse_v6 p remote 0
        then nearest remote (entries (pieces (split_at 44 (rev_onto header []))))
        else remote)
unfolding client_ip
client_ip-nearest parse_v6 p remote header =
    client_from-nearest parse_v6 p remote (forwarded_for header)
    ∙ ap (λ l. if trusts parse_v6 p remote 0 then nearest remote l else remote)
        (forwarded_for-entries header)
