-- ===== src/Jsonv/Written.antt =====
-- internal/jsonv/jsonv.go: what `WriteString` writes is valid UTF-8.
use pages.Common.{
  Bool, Bool-cases, Option, [], ap, arith, false, inl, inr, leb, length, length-append, ltb, ltb→ge,
  ltb→lt, none, refl, some, suc, sym, true, zero, ℕ, ◌%◌, ◌&&◌, ◌*◌, ◌++◌, ◌+◌, ◌/◌, ◌<◌, ◌==◌, ◌∙◌,
  ◌∷◌, ◌≡◌, ◌≤◌, ◌⊎◌,
}
use pages.Jsonv.Decoding.{
  Character, next_char-Character, valid-character, valid-replacement, valid_from-step,
}
use pages.Jsonv.Escapes.{escape_byte-cases}
use pages.Jsonv.Plain.{IsAscii, IsHigh, IsText, next_char-IsHigh}
use pages.Jsonv.Texts.{escape_all, escape_byte, escape_slow, hex_digit, lone_surrogate, quote}
use pages.Jsonv.Utf8.{Bytes, Tail, broken, complete, next_char, replacement, valid, valid_from}
use mathlib.Core.List.{append_assoc}

pub valid-ascii : (t more : Bytes) → IsAscii t → valid (t ++ more) ≡ valid more
valid-ascii [] more h = refl
valid-ascii (c ∷ t) more h =
    let plain : next_char c (t ++ more) ≡ complete (c ∷ []) (t ++ more) =
      unfold next_char in ground (arith, h.0) in
    valid-character c [] (t ++ more) plain ∙ valid-ascii t more h.1

hex_digit-ascii : (n : ℕ) → n < 16 → hex_digit n < 128
hex_digit-ascii n h = ground arith

named-IsAscii :
    (c : ℕ) → (c ≡ 34 ⊎ c ≡ 92 ⊎ c ≡ 8 ⊎ c ≡ 12 ⊎ c ≡ 10 ⊎ c ≡ 13 ⊎ c ≡ 9) → IsAscii (escape_byte c)
unfolding escape_byte
named-IsAscii c (inl e) = rw e (omega arith, (omega arith, tt))
named-IsAscii c (inr (inl e)) = rw e (omega arith, (omega arith, tt))
named-IsAscii c (inr (inr (inl e))) = rw e (omega arith, (omega arith, tt))
named-IsAscii c (inr (inr (inr (inl e)))) = rw e (omega arith, (omega arith, tt))
named-IsAscii c (inr (inr (inr (inr (inl e))))) = rw e (omega arith, (omega arith, tt))
named-IsAscii c (inr (inr (inr (inr (inr (inl e)))))) = rw e (omega arith, (omega arith, tt))
named-IsAscii c (inr (inr (inr (inr (inr (inr e)))))) = rw e (omega arith, (omega arith, tt))

escape_byte-IsAscii : (c : ℕ) → c < 128 → IsAscii (escape_byte c)
escape_byte-IsAscii c h = elim (escape_byte-cases c) [
  | inl short ↦ named-IsAscii c short
  | inr (inl (low, e)) ↦
      let first = hex_digit-ascii (c / 16) (omega arith) in
      let second = hex_digit-ascii (c % 16) (omega arith) in
      rw e (omega arith, (omega arith, (omega arith, (omega arith, (first, (second, tt))))))
  | inr (inr (e, _, _, _)) ↦ rw e (h, tt)
]

escape_byte-plain : (c : ℕ) → 128 ≤ c → escape_byte c ≡ c ∷ []
unfolding escape_byte
escape_byte-plain c h = ground arith

escape_all-high : (t rest : Bytes) → IsHigh t → escape_all (t ++ rest) ≡ t ++ escape_all rest
unfolding escape_all
escape_all-high [] rest h = refl
escape_all-high (c ∷ t) rest h = rw (escape_byte-plain c h.0, escape_all-high t rest h.1) refl

-- A character, and what the loop of `WriteString` makes of it.
escape_all-character :
    (c : ℕ) (cs t rest : Bytes)
    → 128 ≤ c
    → next_char c cs ≡ complete (c ∷ t) rest
    → cs ≡ t ++ rest
    → escape_all (c ∷ cs) ≡ c ∷ t ++ escape_all rest
escape_all-character c cs t rest h e cut =
    rw cut (escape_all-high (c ∷ t) rest (next_char-IsHigh c cs (c ∷ t) rest h e))

escape_all-valid :
    (f : ℕ) (s more : Bytes)
    → length s ≤ f
    → valid_from f s ≡ true
    → valid (escape_all s ++ more) ≡ valid more
unfolding valid_from
escape_all-valid f [] more h v = unfold escape_all in refl
escape_all-valid zero (c ∷ cs) more h v = absurd (omega arith)
escape_all-valid (suc f) (c ∷ cs) more h v = elim (Bool-cases (ltb c 128)) [
  | inl low ↦
      let one : next_char c cs ≡ complete (c ∷ []) cs = unfold next_char in rw low refl in
      let rest : valid_from f cs ≡ true = sym (valid_from-step f c [] cs one) ∙ v in
      plain (ltb→lt c 128 low) ∙ escape_all-valid f cs more (omega arith) rest
  | inr high ↦
      go (ltb→ge c 128 high) (next_char c cs) refl (next_char-Character c cs)
        (λ rest l. escape_all-valid f rest more (omega arith)) v
]
  where
    plain : c < 128 → valid (escape_all (c ∷ cs) ++ more) ≡ valid (escape_all cs ++ more)
    plain l =
        unfold escape_all in
        rw (append_assoc (escape_byte c) (escape_all cs) more)
          (valid-ascii (escape_byte c) (escape_all cs ++ more) (escape_byte-IsAscii c l))

    go :
        128 ≤ c
        → (t : Tail) → next_char c cs ≡ t
        → Character c cs t
        → ((rest : Bytes)
            → length rest ≤ length cs
            → valid_from f rest ≡ true
            → valid (escape_all rest ++ more) ≡ valid more)
        → (elim t as (λ _. Bool) [ complete got rest ↦ valid_from f rest | broken rest ↦ false ])
          ≡ true
        → valid (escape_all (c ∷ cs) ++ more) ≡ valid more
    go l (complete got rest) e (t, same, cut, whole) again v =
        let led : next_char c cs ≡ complete (c ∷ t) rest = rw same at e in
        rw (escape_all-character c cs t rest l led cut, append_assoc t (escape_all rest) more)
          (valid-character c t (escape_all rest ++ more) (whole (escape_all rest ++ more))
            ∙ again rest (omega (arith, ap length cut, length-append t rest)) v)
    go l (broken rest) e k again v = cc

-- What `lone_surrogate` gives.
abbrev Escaped : Bytes → Option (Bytes × Bytes) → Type 0
Escaped s none = Unit
Escaped s (some (out, rest)) = IsAscii out × (length rest < length s)

lone_surrogate-Escaped : (s : Bytes) → Escaped s (lone_surrogate s)
unfolding lone_surrogate
lone_surrogate-Escaped [] = tt
lone_surrogate-Escaped (_ ∷ []) = tt
lone_surrogate-Escaped (_ ∷ _ ∷ []) = tt
lone_surrogate-Escaped (a ∷ b ∷ c ∷ rest) =
    elim (Bool-cases (a == 0xed && leb 0xa0 b && leb b 0xbf && leb 0x80 c && leb c 0xbf)) [
      | inl e ↦
          let r = 0xd000 + b % 0x40 * 0x40 + c % 0x40 in
          let first = hex_digit-ascii (r / 0x100 % 16) (omega arith) in
          let second = hex_digit-ascii (r / 16 % 16) (omega arith) in
          let third = hex_digit-ascii (r % 16) (omega arith) in
          rw e (
            (omega arith, (omega arith, (omega arith, (first, (second, (third, tt)))))),
            omega arith,
          )
      | inr e ↦ rw e tt
    ]

escape_slow-valid :
    (f : ℕ) (s more : Bytes) → length s ≤ f → valid (escape_slow f s ++ more) ≡ valid more
escape_slow-valid f [] more h = unfold escape_slow in refl
escape_slow-valid zero (c ∷ cs) more h = absurd (omega arith)
escape_slow-valid (suc f) (c ∷ cs) more h = elim (Bool-cases (ltb c 0x80)) [
  | inl low ↦ plain low ∙ escape_slow-valid f cs more (omega arith)
  | inr high ↦ other high (λ rest l. escape_slow-valid f rest more (omega arith))
]
  where
    char :
        (t : Tail)
        → Character c cs t
        → ((rest : Bytes)
            → length rest ≤ length cs
            → valid (escape_slow f rest ++ more) ≡ valid more)
        → valid (
            (elim t as (λ _. Bytes) [
              | complete got rest ↦ got ++ escape_slow f rest
              | broken _ ↦ replacement ++ escape_slow f cs
            ])
            ++ more)
          ≡ valid more
    char (complete got rest) (t, same, cut, whole) again =
        rw (same, append_assoc t (escape_slow f rest) more)
          (valid-character c t (escape_slow f rest ++ more) (whole (escape_slow f rest ++ more))
            ∙ again rest (omega (arith, ap length cut, length-append t rest)))
    char (broken rest) k again =
        valid-replacement (escape_slow f cs ++ more) ∙ again cs (omega arith)

    wide :
        (l : Option (Bytes × Bytes))
        → Escaped (c ∷ cs) l
        → ((rest : Bytes)
            → length rest ≤ length cs
            → valid (escape_slow f rest ++ more) ≡ valid more)
        → valid (
            (elim l as (λ _. Bytes) [
              | some (out, rest) ↦ out ++ escape_slow f rest
              | none ↦ elim (next_char c cs) as (λ _. Bytes) [
                | complete got rest ↦ got ++ escape_slow f rest
                | broken _ ↦ replacement ++ escape_slow f cs
              ]
            ])
            ++ more)
          ≡ valid more
    wide none k again = char (next_char c cs) (next_char-Character c cs) again
    wide (some (out, rest)) (k, l) again =
        rw (append_assoc out (escape_slow f rest) more)
          (valid-ascii out (escape_slow f rest ++ more) k ∙ again rest (omega (arith, l)))

    plain :
        ltb c 0x80 ≡ true
        → valid (escape_slow (suc f) (c ∷ cs) ++ more) ≡ valid (escape_slow f cs ++ more)
    plain low =
        unfold escape_slow in
        rw (low, append_assoc (escape_byte c) (escape_slow f cs) more)
          (valid-ascii (escape_byte c) (escape_slow f cs ++ more)
            (escape_byte-IsAscii c (ltb→lt c 128 low)))

    other :
        ltb c 0x80 ≡ false
        → ((rest : Bytes)
            → length rest ≤ length cs
            → valid (escape_slow f rest ++ more) ≡ valid more)
        → valid (escape_slow (suc f) (c ∷ cs) ++ more) ≡ valid more
    other high again =
        unfold escape_slow in
        rw high (wide (lone_surrogate (c ∷ cs)) (lone_surrogate-Escaped (c ∷ cs)) again)

-- What `WriteString` writes is valid UTF-8 whatever the bytes of the string are, lone surrogates and
-- broken sequences included, and what stands after it is as valid as by itself.
pub quote-IsText : (s : Bytes) → IsText (quote s)
unfolding quote
quote-IsText s more = elim (Bool-cases (valid s)) [
  | inl v ↦
      rw (v, append_assoc (escape_all s) (b'"' ∷ []) more)
        (quoted (escape_all s ++ b'"' ∷ more)
          ∙ escape_all-valid (length s) s (b'"' ∷ more) (omega arith) (unfold valid in v)
          ∙ quoted more)
  | inr v ↦
      rw (v, append_assoc (escape_slow (length s) s) (b'"' ∷ []) more)
        (quoted (escape_slow (length s) s ++ b'"' ∷ more)
          ∙ escape_slow-valid (length s) s (b'"' ∷ more) (omega arith)
          ∙ quoted more)
]
  where
    quoted : (t : Bytes) → valid (b'"' ∷ t) ≡ valid t
    quoted t = valid-ascii (b'"' ∷ []) t (omega arith, tt)
