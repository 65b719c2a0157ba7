-- ===== src/Jsonv/Decoding.antt =====
-- internal/jsonv/jsonv.go: what is decoded or cleaned is valid UTF-8.
use pages.Common.{
  Bool, Bool-cases, Option, [], ap, arith, false, if◌then◌else◌, inl, inr, length, length-append,
  ltb, none, refl, some, suc, sym, true, zero, ℕ, ◌++◌, ◌||◌, ◌∙◌, ◌∷◌, ◌≡◌, ◌≤◌,
}
use pages.Jsonv.Utf8.{
  Bytes, Tail, broken, complete, decode_from, decode_utf8, grow, lead, led_by, next_char,
  replacement, tail, to_valid, to_valid_from, valid, valid_from,
}

-- A complete sequence is complete whatever follows it, and a broken one is left behind.
abbrev Sequence : (Bytes → Tail) → Bytes → Tail → Type 0
Sequence read bs (complete got rest) =
    (bs ≡ got ++ rest) × ((more : Bytes) → read (got ++ more) ≡ complete got more)
Sequence read bs (broken rest) = length rest ≤ length bs

tail-Sequence : (need lo hi : ℕ) (bs : Bytes) → Sequence (tail need lo hi) bs (tail need lo hi bs)
unfolding tail
tail-Sequence zero lo hi bs = (refl, λ more. refl)
tail-Sequence (suc need) lo hi [] = omega arith
tail-Sequence (suc need) lo hi (b ∷ bs) =
    go (ltb b lo || ltb hi b) refl (tail need 0x80 0xbf bs) (tail-Sequence need 0x80 0xbf bs)
  where
    go :
        (c : Bool)
        → (ltb b lo || ltb hi b) ≡ c
        → (t : Tail) → Sequence (tail need 0x80 0xbf) bs t
        → Sequence (tail (suc need) lo hi) (b ∷ bs) (if c then broken (b ∷ bs) else grow b t)
    go true e t h = omega arith
    go false e (complete got rest) h = (ap (◌∷◌ b) h.0, λ more. rw e (ap (grow b) (h.1 more)))
    go false e (broken rest) h = omega arith

-- The same of a character.
abbrev pub Character : ℕ → Bytes → Tail → Type 0
Character c cs (complete got rest) =
    (t : Bytes) × (got ≡ c ∷ t)
    × (cs ≡ t ++ rest)
    × ((more : Bytes) → next_char c (t ++ more) ≡ complete (c ∷ t) more)
Character c cs (broken rest) = length rest ≤ length cs

led_by-Character :
    (c : ℕ) (cs : Bytes) (l : Option (ℕ × ℕ × ℕ))
    → ((ds : Bytes) → next_char c ds ≡ led_by c ds l)
    → Character c cs (led_by c cs l)
led_by-Character c cs none e = omega arith
led_by-Character c cs (some (need, lo, hi)) e =
    go (tail need lo hi cs) (tail-Sequence need lo hi cs)
  where
    go : (t : Tail) → Sequence (tail need lo hi) cs t → Character c cs (grow c t)
    go (complete got rest) h = (got, refl, h.0, λ more. e (got ++ more) ∙ ap (grow c) (h.1 more))
    go (broken rest) h = h

pub next_char-Character : (c : ℕ) (cs : Bytes) → Character c cs (next_char c cs)
next_char-Character c cs = elim (Bool-cases (ltb c 0x80)) [
  | inl ascii ↦
      let plain : (ds : Bytes) → next_char c ds ≡ complete (c ∷ []) ds =
        λ ds. unfold next_char in rw ascii refl in
      rw (plain cs) ([], refl, refl, plain)
  | inr high ↦
      let led : (ds : Bytes) → next_char c ds ≡ led_by c ds (lead c) =
        λ ds. unfold next_char in rw high refl in
      rw (led cs) (led_by-Character c cs (lead c) led)
]

-- The rounds do not matter, once there is one for each byte.
valid_from-enough :
    (f g : ℕ) (s : Bytes) → length s ≤ f → length s ≤ g → valid_from f s ≡ valid_from g s
unfolding valid_from
valid_from-enough f g [] h k = refl
valid_from-enough zero g (c ∷ cs) h k = absurd (omega arith)
valid_from-enough (suc f) zero (c ∷ cs) h k = absurd (omega arith)
valid_from-enough (suc f) (suc g) (c ∷ cs) h k =
    go (next_char c cs) (next_char-Character c cs)
      (λ rest l. valid_from-enough f g rest (omega arith) (omega arith))
  where
    go :
        (t : Tail)
        → Character c cs t
        → ((rest : Bytes) → length rest ≤ length cs → valid_from f rest ≡ valid_from g rest)
        → (elim t as (λ _. Bool) [ complete got rest ↦ valid_from f rest | broken rest ↦ false ])
          ≡ elim t as (λ _. Bool) [ complete got rest ↦ valid_from g rest | broken rest ↦ false ]
    go (complete got rest) (t, e, cut, _) again =
        again rest (omega (arith, ap length cut, length-append t rest))
    go (broken rest) h again = refl

pub valid_from-step :
    (f c : ℕ) (t more : Bytes)
    → next_char c (t ++ more) ≡ complete (c ∷ t) more
    → valid_from (suc f) (c ∷ t ++ more) ≡ valid_from f more
unfolding valid_from
valid_from-step f c t more e =
    ap (λ x. elim x as (λ _. Bool) [ complete got rest ↦ valid_from f rest | broken rest ↦ false ])
      e

-- A character in front changes nothing.
valid_from-character :
    (f c : ℕ) (t more : Bytes)
    → next_char c (t ++ more) ≡ complete (c ∷ t) more
    → length more ≤ f
    → valid_from (suc f) (c ∷ t ++ more) ≡ valid_from (length more) more
valid_from-character f c t more e h =
    let enough : length more ≤ length more = omega arith in
    valid_from-step f c t more e ∙ valid_from-enough f (length more) more h enough

pub valid-character :
    (c : ℕ) (t more : Bytes)
    → next_char c (t ++ more) ≡ complete (c ∷ t) more
    → valid (c ∷ t ++ more) ≡ valid more
valid-character c t more e =
    unfold valid in
    valid_from-character (length (t ++ more)) c t more e (omega (arith, length-append t more))

pub valid-replacement : (more : Bytes) → valid (replacement ++ more) ≡ valid more
valid-replacement more =
    valid-character 0xef (0xbf ∷ 0xbd ∷ []) more (unfold next_char lead tail in refl)

decode_from-valid : (f : ℕ) (s : Bytes) → length s ≤ f → valid (decode_from f s) ≡ true
unfolding decode_from
decode_from-valid f [] h = unfold valid in refl
decode_from-valid zero (c ∷ cs) h = absurd (omega arith)
decode_from-valid (suc f) (c ∷ cs) h =
    go (next_char c cs) (next_char-Character c cs)
      (λ rest l. decode_from-valid f rest (omega arith))
  where
    go :
        (t : Tail)
        → Character c cs t
        → ((rest : Bytes) → length rest ≤ length cs → valid (decode_from f rest) ≡ true)
        → valid (elim t as (λ _. Bytes) [
          | complete got rest ↦ got ++ decode_from f rest
          | broken rest ↦ replacement ++ decode_from f rest
        ])
          ≡ true
    go (complete got rest) (t, e, cut, whole) again = rw e (
        valid-character c t (decode_from f rest) (whole (decode_from f rest))
        ∙ again rest (omega (arith, ap length cut, length-append t rest)))
    go (broken rest) h again = valid-replacement (decode_from f rest) ∙ again rest h

-- The loop leaves valid text as it is.
decode_from-unchanged :
    (f : ℕ) (s : Bytes) → length s ≤ f → valid_from f s ≡ true → decode_from f s ≡ s
unfolding decode_from valid_from
decode_from-unchanged f [] h v = refl
decode_from-unchanged zero (c ∷ cs) h v = absurd (omega arith)
decode_from-unchanged (suc f) (c ∷ cs) h v =
    go (next_char c cs) (next_char-Character c cs)
      (λ rest l. decode_from-unchanged f rest (omega arith)) v
  where
    go :
        (t : Tail)
        → Character c cs t
        → ((rest : Bytes)
            → length rest ≤ length cs
            → valid_from f rest ≡ true
            → decode_from f rest ≡ rest)
        → (elim t as (λ _. Bool) [ complete got rest ↦ valid_from f rest | broken rest ↦ false ])
          ≡ true
        → (elim t as (λ _. Bytes) [
          | complete got rest ↦ got ++ decode_from f rest
          | broken rest ↦ replacement ++ decode_from f rest
        ])
          ≡ c ∷ cs
    go (complete got rest) (t, e, cut, whole) again v =
        rw (again rest (omega (arith, ap length cut, length-append t rest)) v, e, cut) refl
    go (broken rest) h again v = cc

to_valid_from-valid :
    (f : ℕ) (b : Bool) (s : Bytes) → length s ≤ f → valid (to_valid_from f b s) ≡ true
unfolding to_valid_from
to_valid_from-valid f b [] h = unfold valid in refl
to_valid_from-valid zero b (c ∷ cs) h = absurd (omega arith)
to_valid_from-valid (suc f) b (c ∷ cs) h =
    go (next_char c cs) (next_char-Character c cs)
      (λ b' rest l. to_valid_from-valid f b' rest (omega arith))
  where
    replaced :
        (b' : Bool) (more : Bytes)
        → valid more ≡ true
        → valid ((if b' then [] else replacement) ++ more) ≡ true
    replaced true more v = v
    replaced false more v = valid-replacement more ∙ v

    go :
        (t : Tail)
        → Character c cs t
        → ((b' : Bool) (rest : Bytes)
            → length rest ≤ length cs
            → valid (to_valid_from f b' rest) ≡ true)
        → valid (elim t as (λ _. Bytes) [
          | complete got rest ↦ got ++ to_valid_from f false rest
          | broken _ ↦ (if b then [] else replacement) ++ to_valid_from f true cs
        ])
          ≡ true
    go (complete got rest) (t, e, cut, whole) again = rw e (
        valid-character c t (to_valid_from f false rest) (whole (to_valid_from f false rest))
        ∙ again false rest (omega (arith, ap length cut, length-append t rest)))
    go (broken rest) h again = replaced b (to_valid_from f true cs) (again true cs (omega arith))

pub to_valid-valid : (s : Bytes) → valid (to_valid s) ≡ true
unfolding to_valid
to_valid-valid s = to_valid_from-valid (length s) false s (omega arith)

-- `DecodeUTF8` gives valid UTF-8 whatever the bytes are, and its early return for valid text changes
-- nothing: the loop itself leaves such text as it is.
pub decode_utf8-valid :
    (s : Bytes) → (valid (decode_utf8 s) ≡ true) × (decode_utf8 s ≡ decode_from (length s) s)
decode_utf8-valid s = elim (Bool-cases (valid s)) [
  | inl v ↦
      let kept : decode_utf8 s ≡ s = unfold decode_utf8 in rw v refl in
      let same = decode_from-unchanged (length s) s (omega arith) (unfold valid in v) in
      (rw kept v, kept ∙ sym same)
  | inr bad ↦
      let looped : decode_utf8 s ≡ decode_from (length s) s = unfold decode_utf8 in rw bad refl in
      (rw looped (decode_from-valid (length s) s (omega arith)), looped)
]
