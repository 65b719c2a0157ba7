-- ===== src/Jsonv/Escapes.antt =====
-- internal/jsonv/jsonv.go: the escapes that are written are read back.
use pages.Common.{
  ==_iff, Bool, Bool-cases, [], arith, false, inl, inr, ltb, ltb→lt, refl, some, ℕ, ◌%◌, ◌*◌, ◌++◌,
  ◌+◌, ◌/◌, ◌<◌, ◌==◌, ◌∷◌, ◌≡◌, ◌⊎◌,
}
use pages.Jsonv.Texts.{escape_byte, hex4, hex_digit, hex_val, rune_bytes, unescape, unicode_escape}
use pages.Jsonv.Utf8.{Bytes}
use pages.Jsonv.Values.{ok}

hex_val-digit : (n : ℕ) → n < 16 → hex_val (hex_digit n) ≡ some n
unfolding hex_val
hex_val-digit n h = ground arith

hex4-digits :
    (n m : ℕ) (rest : Bytes)
    → n < 16
    → m < 16
    → hex4 (b'0' ∷ b'0' ∷ hex_digit n ∷ hex_digit m ∷ rest) ≡ some (n * 16 + m, rest)
unfolding hex4
hex4-digits n m rest h k =
    let zero : hex_val b'0' ≡ some 0 = hex_val-digit 0 (omega arith) in
    ground (arith, zero, hex_val-digit n h, hex_val-digit m k)

pub unescape-control :
    (w : Bool) (c : ℕ) (rest : Bytes)
    → c < 32
    → unescape w (b'u' ∷ b'0' ∷ b'0' ∷ hex_digit (c / 16) ∷ hex_digit (c % 16) ∷ rest)
      ≡ ok (c ∷ [], rest)
unfolding unescape unicode_escape rune_bytes
unescape-control w c rest h =
    ground (arith, hex4-digits (c / 16) (c % 16) rest (omega arith) (omega arith))

-- An escape that `WriteString` writes for a byte is one of it.
abbrev pub Escapes : Bool → ℕ → Bytes → Type 0
Escapes w c rest =
    (e : Bytes) × (escape_byte c ≡ b'\\' ∷ e) × (unescape w (e ++ rest) ≡ ok (c ∷ [], rest))

pub escape_byte-short :
    (w : Bool) (c : ℕ) (rest : Bytes)
    → c ≡ 34 ⊎ c ≡ 92 ⊎ c ≡ 8 ⊎ c ≡ 12 ⊎ c ≡ 10 ⊎ c ≡ 13 ⊎ c ≡ 9
    → Escapes w c rest
unfolding escape_byte unescape
escape_byte-short w c rest (inl e) = rw e (34 ∷ [], refl, refl)
escape_byte-short w c rest (inr (inl e)) = rw e (92 ∷ [], refl, refl)
escape_byte-short w c rest (inr (inr (inl e))) = rw e (b'b' ∷ [], refl, refl)
escape_byte-short w c rest (inr (inr (inr (inl e)))) = rw e (b'f' ∷ [], refl, refl)
escape_byte-short w c rest (inr (inr (inr (inr (inl e))))) = rw e (b'n' ∷ [], refl, refl)
escape_byte-short w c rest (inr (inr (inr (inr (inr (inl e)))))) = rw e (b'r' ∷ [], refl, refl)
escape_byte-short w c rest (inr (inr (inr (inr (inr (inr e)))))) = rw e (b't' ∷ [], refl, refl)

pub escape_byte-cases :
    (c : ℕ)
    → (c ≡ 34 ⊎ c ≡ 92 ⊎ c ≡ 8 ⊎ c ≡ 12 ⊎ c ≡ 10 ⊎ c ≡ 13 ⊎ c ≡ 9)
      ⊎ (((c < 32)
            × (escape_byte c
                ≡ b'\\' ∷ b'u' ∷ b'0' ∷ b'0' ∷ hex_digit (c / 16) ∷ hex_digit (c % 16) ∷ []))
          ⊎ ((escape_byte c ≡ c ∷ [])
              × ((c == 34) ≡ false)
              × ((c == 92) ≡ false)
              × (ltb c 32 ≡ false)))
unfolding escape_byte
escape_byte-cases c = elim (Bool-cases (c == 34)) [
  | inl e ↦ inl (inl ((==_iff c 34).0 e))
  | inr n34 ↦ elim (Bool-cases (c == 92)) [
    | inl e ↦ inl (inr (inl ((==_iff c 92).0 e)))
    | inr n92 ↦ elim (Bool-cases (c == 8)) [
      | inl e ↦ inl (inr (inr (inl ((==_iff c 8).0 e))))
      | inr n8 ↦ elim (Bool-cases (c == 12)) [
        | inl e ↦ inl (inr (inr (inr (inl ((==_iff c 12).0 e)))))
        | inr n12 ↦ elim (Bool-cases (c == 10)) [
          | inl e ↦ inl (inr (inr (inr (inr (inl ((==_iff c 10).0 e))))))
          | inr n10 ↦ elim (Bool-cases (c == 13)) [
            | inl e ↦ inl (inr (inr (inr (inr (inr (inl ((==_iff c 13).0 e)))))))
            | inr n13 ↦ elim (Bool-cases (c == 9)) [
              | inl e ↦ inl (inr (inr (inr (inr (inr (inr ((==_iff c 9).0 e)))))))
              | inr n9 ↦ elim (Bool-cases (ltb c 32)) [
                | inl low ↦
                    inr (inl (ltb→lt c 32 low, ground (arith, n34, n92, n8, n12, n10, n13, n9)))
                | inr high ↦ inr (inr (ground (arith, n34, n92), n34, n92, high))
              ]
            ]
          ]
        ]
      ]
    ]
  ]
]
