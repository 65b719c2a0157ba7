-- ===== src/Jsstr/Units.antt =====
-- What `Slice` promises: its length in code units, and that its fast path changes nothing.
use pages.Common.{
  All, Bool-cases, List, Text, [], ap, arith, drop, false, if◌then◌else◌, inl, inr, leb, leb→le,
  length, refl, suc, take, true, zero, ℕ, ◌%◌, ◌&&◌, ◌*◌, ◌-◌, ◌/◌, ◌<◌, ◌||◌, ◌∙◌, ◌∷◌, ◌≡◌, ◌≤◌,
  ◌⊎◌, ◌+◌,
}
use pages.Jsstr.{utf16_len, utf8_len, encode, encode_rune, is_high, is_low, decode, slice}

-- A Unicode scalar value: what a rune of a valid string is.
abbrev pub IsScalar : ℕ → Type 0
IsScalar r = (r < 0x110000) × ((r < 0xd800) ⊎ (0xe000 ≤ r))

length-take : (n : ℕ) (xs : List ℕ) → length (take n xs) ≤ n
length-take zero xs = omega arith
length-take (suc n) [] = omega arith
length-take (suc n) (x ∷ xs) = omega (arith, length-take n xs)

length-encode : (s : Text) → length (encode s) ≡ utf16_len s
unfolding encode utf16_len
length-encode [] = refl
length-encode (r ∷ rs) = ground (arith, length-encode rs)

utf16_len-le-utf8_len : (s : Text) → utf16_len s ≤ utf8_len s
unfolding utf16_len utf8_len
utf16_len-le-utf8_len [] = omega arith
utf16_len-le-utf8_len (r ∷ rs) = ground (arith, utf16_len-le-utf8_len rs)

abbrev IsUnit : ℕ → Type 0
IsUnit u = u < 0x10000

-- What a surrogate pair decodes to.
abbrev pair : ℕ → ℕ → ℕ
pair u v = 0x10000 + (u - 0xd800) * 0x400 + (v - 0xdc00)

abbrev lone : ℕ → ℕ
lone u = if is_high u || is_low u then 0xfffd else u

decode-pair :
    (u v : ℕ) (us : List ℕ)
    → (is_high u && is_low v) ≡ true
    → decode (u ∷ v ∷ us) ≡ pair u v ∷ decode us
unfolding decode
decode-pair u v us h = rw h

decode-lone :
    (u v : ℕ) (us : List ℕ)
    → (is_high u && is_low v) ≡ false
    → decode (u ∷ v ∷ us) ≡ lone u ∷ decode (v ∷ us)
unfolding decode
decode-lone u v us h = rw h

utf16_len-pair :
    (u v : ℕ) (us : List ℕ)
    → (is_high u && is_low v) ≡ true
    → utf16_len (pair u v ∷ decode us) ≡ 2 + utf16_len (decode us)
unfolding utf16_len
utf16_len-pair u v us h = ground arith

utf16_len-lone : (u : ℕ) (us : Text) → IsUnit u → utf16_len (lone u ∷ us) ≡ 1 + utf16_len us
unfolding utf16_len
utf16_len-lone u us h = ground arith

utf16_len-decode : (us : List ℕ) → All IsUnit us → utf16_len (decode us) ≡ length us
utf16_len-decode [] h = unfold decode utf16_len in refl
utf16_len-decode (u ∷ []) h = unfold decode in utf16_len-lone u [] h.0 ∙ unfold utf16_len in refl
utf16_len-decode (u ∷ v ∷ us) h = elim (Bool-cases (is_high u && is_low v)) [
  | inl two ↦
      rw (decode-pair u v us two)
        (omega (arith, utf16_len-pair u v us two, utf16_len-decode us h.1.1))
  | inr one ↦
      rw (decode-lone u v us one)
        (omega (arith, utf16_len-lone u (decode (v ∷ us)) h.0, utf16_len-decode (v ∷ us) h.1))
]

encode-IsUnit : (s : Text) → All IsScalar s → All IsUnit (encode s)
unfolding encode
encode-IsUnit [] h = tt
encode-IsUnit (r ∷ rs) h = ground (arith, encode-IsUnit rs h.1)

take-IsUnit : (n : ℕ) (us : List ℕ) → All IsUnit us → All IsUnit (take n us)
take-IsUnit zero us h = tt
take-IsUnit (suc n) [] h = tt
take-IsUnit (suc n) (u ∷ us) h = (h.0, take-IsUnit n us h.1)

drop-IsUnit : (n : ℕ) (us : List ℕ) → All IsUnit us → All IsUnit (drop n us)
drop-IsUnit zero us h = h
drop-IsUnit (suc n) [] h = tt
drop-IsUnit (suc n) (u ∷ us) h = drop-IsUnit n us h.1

decode-cons : (u : ℕ) (us : List ℕ) → (u < 0xd800) ⊎ (0xe000 ≤ u) → decode (u ∷ us) ≡ u ∷ decode us
unfolding decode
decode-cons u [] h = ground arith
decode-cons u (v ∷ us) h = ground arith

-- The surrogate pair of a code point above U+FFFF decodes to it.
pair_of_wide :
    (r : ℕ)
    → leb 0x10000 r ≡ true
    → r < 0x110000
    → let u = 0xd800 + (r - 0x10000) / 0x400 in
      let v = 0xdc00 + (r - 0x10000) % 0x400 in ((is_high u && is_low v) ≡ true) × (pair u v ≡ r)
pair_of_wide r h b = (ground arith, omega (arith, leb→le 0x10000 r h))

decode-encode_rune : (r : ℕ) (us : List ℕ) → IsScalar r → decode (encode_rune r us) ≡ r ∷ decode us
decode-encode_rune r us h = elim (Bool-cases (leb 0x10000 r)) [
  | inl wide ↦ rw wide (
      let (both, same) = pair_of_wide r wide h.0 in
      decode-pair (0xd800 + (r - 0x10000) / 0x400) (0xdc00 + (r - 0x10000) % 0x400) us both
      ∙ ap (λ x. x ∷ decode us) same)
  | inr narrow ↦ rw narrow (decode-cons r us h.1)
]

decode-encode : (s : Text) → All IsScalar s → decode (encode s) ≡ s
unfolding encode
decode-encode [] h = unfold decode in refl
decode-encode (r ∷ rs) h = decode-encode_rune r (encode rs) h.0 ∙ ap (◌∷◌ r) (decode-encode rs h.1)

take-all : (n : ℕ) (us : List ℕ) → length us ≤ n → take n us ≡ us
take-all zero [] h = refl
take-all zero (u ∷ us) h = absurd (omega arith)
take-all (suc n) [] h = refl
take-all (suc n) (u ∷ us) h = ap (◌∷◌ u) (take-all n us (omega arith))

-- A slice from the start whose end is not below the bytes of a valid string is the string itself,
-- and so is what the conversion through UTF-16 gives: the early return of `Slice` changes nothing.
pub slice_fast_path :
    (s : Text) (end : ℕ)
    → All IsScalar s
    → utf8_len s ≤ end
    → (slice s 0 end ≡ s) × (decode (drop 0 (take end (encode s))) ≡ s)
slice_fast_path s end h fits = (
  unfold slice in ground arith,
  rw (take-all end (encode s) (omega (arith, length-encode s, utf16_len-le-utf8_len s)))
      (decode-encode s h),
)

-- A slice of a valid string from the start never has more than `end` code units, even where the
-- cut splits a surrogate pair.
pub utf16_len-slice : (s : Text) (end : ℕ) → All IsScalar s → utf16_len (slice s 0 end) ≤ end
utf16_len-slice s end h = elim (Bool-cases (leb (utf8_len s) end)) [
  | inl short ↦ unfold slice in rw short (ground (arith, utf16_len-le-utf8_len s))
  | inr long ↦
      unfold slice in
      rw long (
        omega (
          arith,
          utf16_len-decode (take end (encode s)) (take-IsUnit end (encode s) (encode-IsUnit s h)),
          length-take end (encode s),
        ))
]
