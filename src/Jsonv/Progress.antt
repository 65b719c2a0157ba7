-- ===== src/Jsonv/Progress.antt =====
-- internal/jsonv/jsonv.go: each part of the parser consumes what it reads.
use pages.Common.{
  Bool, Option, [], arith, false, if◌then◌else◌, leb, length, ltb, none, not, refl, some, suc, true,
  zero, ℕ, ◌&&◌, ◌*◌, ◌+◌, ◌-◌, ◌<◌, ◌==◌, ◌||◌, ◌∷◌, ◌≡◌, ◌≤◌,
}
use pages.Jsonv.Parse.{skip_space}
use pages.Jsonv.Quoting.{length-plain_prefix}
use pages.Jsonv.Texts.{
  after_plain, cleaned, escapes, hex4, is_surrogate, low_after, next_digit, plain_prefix, prepend,
  rune_bytes, string_literal, surrogate, unescape, unicode_escape,
}
use pages.Jsonv.Utf8.{Bytes, replacement, valid}
use pages.Jsonv.Values.{Message, Result, bad_unicode, err, ok, out_of_fuel, ◌>>=◌}

abbrev pub is_fuel : Message → Bool
is_fuel out_of_fuel = true
is_fuel _ = false

-- A result that is no lack of fuel, and that leaves less than `n` bytes.
pub data Within {ℓ} {A : Type ℓ} (n : ℕ) : Result (A × Bytes) → Type ℓ where
  leaves : {a : A} {rest : Bytes} → length rest < n → Within n (ok (a, rest))
  refuses : {m : Message} {rest : Bytes} → is_fuel m ≡ false → Within n (err m rest)

pub Within-mono {ℓ} :
    {A : Type ℓ} (n m : ℕ) {r : Result (A × Bytes)} → Within n r → n ≤ m → Within m r
Within-mono n m (leaves h) l = leaves (omega arith)
Within-mono n m (refuses h) l = refuses h

pub Within-bind {ℓ κ} :
    {A : Type ℓ} {B : Type κ} (n m : ℕ) {r : Result (A × Bytes)}
    (g : A × Bytes → Result (B × Bytes))
    → Within n r
    → ((a : A) (rest : Bytes) → length rest < n → Within m (g (a, rest)))
    → Within m (r >>= g)
Within-bind n m g (leaves {a} {rest} h) k = k a rest h
Within-bind n m g (refuses h) k = refuses h

pub length-skip_space : (bs : Bytes) → length (skip_space bs) ≤ length bs
unfolding skip_space
length-skip_space [] = omega arith
length-skip_space (c ∷ cs) = let ih = length-skip_space cs in ground arith

pub Within-if {ℓ} :
    {A : Type ℓ} {n : ℕ} (b : Bool) {r s : Result (A × Bytes)}
    → Within n r
    → Within n s
    → Within n (if b then r else s)
Within-if true h k = h
Within-if false h k = k

-- Strings.
abbrev Leaves : ℕ → Option (ℕ × Bytes) → Type 0
Leaves n none = Unit
Leaves n (some (r, rest)) = length rest ≤ n

hex4-Leaves : (es : Bytes) → Leaves (length es) (hex4 es)
unfolding hex4
hex4-Leaves [] = tt
hex4-Leaves (a ∷ []) = tt
hex4-Leaves (a ∷ b ∷ []) = tt
hex4-Leaves (a ∷ b ∷ c ∷ []) = tt
hex4-Leaves (a ∷ b ∷ c ∷ d ∷ rest) =
    go (next_digit (next_digit (next_digit (next_digit (some 0) a) b) c) d)
  where
    go :
        (o : Option ℕ)
        → Leaves
            (length (a ∷ b ∷ c ∷ d ∷ rest))
            (elim o as (λ _. Option (ℕ × Bytes)) [ none ↦ none | some r ↦ some (r, rest) ])
    go none = tt
    go (some r) = omega arith

low_after-Leaves : (es : Bytes) → Leaves (length es) (low_after es)
unfolding low_after
low_after-Leaves [] = tt
low_after-Leaves (a ∷ []) = tt
low_after-Leaves (a ∷ b ∷ es) = pair (a == b'\\' && b == b'u') (hex4 es) (hex4-Leaves es)
  where
    low :
        (c : Bool) (lo : ℕ) (rest : Bytes)
        → length rest ≤ length es
        → Leaves (length (a ∷ b ∷ es)) (if c then some (lo, rest) else none)
    low true lo rest h = omega arith
    low false lo rest h = tt

    pair :
        (c : Bool) (o : Option (ℕ × Bytes))
        → Leaves (length es) o
        → Leaves (length (a ∷ b ∷ es)) (
            if c
            then (elim o as (λ _. Option (ℕ × Bytes)) [
              | none ↦ none
              | some (lo, after) ↦ if leb 0xdc00 lo && leb lo 0xdfff then some (lo, after) else none
            ])
            else none)
    pair true none h = tt
    pair true (some (lo, after)) h = low (leb 0xdc00 lo && leb lo 0xdfff) lo after h
    pair false o h = tt

length-surrogate : (w : Bool) (r : ℕ) (es : Bytes) → length ((surrogate w r es).1) ≤ length es
unfolding surrogate
length-surrogate w r es = go (ltb r 0xdc00) (low_after es) (low_after-Leaves es)
  where
    chosen :
        (o : Option (ℕ × Bytes))
        → Leaves (length es) o
        → length (
            (elim o as (λ _. Bytes × Bytes) [
              | some (lo, after) ↦
                  (rune_bytes (0x10000 + (r - 0xd800) * 0x400 + (lo - 0xdc00)), after)
              | none ↦ (if w then rune_bytes r else replacement, es)
            ]).1)
          ≤ length es
    chosen none h = omega arith
    chosen (some (lo, after)) h = h

    go :
        (b : Bool) (o : Option (ℕ × Bytes))
        → Leaves (length es) o
        → length (
            (elim (if b then o else none) as (λ _. Bytes × Bytes) [
              | some (lo, after) ↦
                  (rune_bytes (0x10000 + (r - 0xd800) * 0x400 + (lo - 0xdc00)), after)
              | none ↦ (if w then rune_bytes r else replacement, es)
            ]).1)
          ≤ length es
    go true o h = chosen o h
    go false o h = chosen none tt

unicode_escape-Within : (w : Bool) (es : Bytes) → Within (suc (length es)) (unicode_escape w es)
unfolding unicode_escape
unicode_escape-Within w es = go (hex4 es) (hex4-Leaves es)
  where
    go :
        (o : Option (ℕ × Bytes))
        → Leaves (length es) o
        → Within (suc (length es)) (elim o as (λ _. Result (Bytes × Bytes)) [
          | none ↦ err bad_unicode es
          | some (r, rest) ↦
              if is_surrogate r then ok (surrogate w r rest) else ok (rune_bytes r, rest)
        ])
    go none h = refuses refl
    go (some (r, rest)) h =
        Within-if (is_surrogate r)
          (leaves {rest = (surrogate w r rest).1} (omega (arith, length-surrogate w r rest)))
          (leaves {rest = rest} (omega arith))

unescape-Within : (w : Bool) (es : Bytes) → Within (length es) (unescape w es)
unfolding unescape
unescape-Within w [] = refuses refl
unescape-Within w (e ∷ es) =
    Within-if (e == b'"' || e == b'\\' || e == b'/') (leaves {rest = es} (omega arith)) (
      Within-if (e == b'b') (leaves {rest = es} (omega arith)) (
        Within-if (e == b'f') (leaves {rest = es} (omega arith)) (
          Within-if (e == b'n') (leaves {rest = es} (omega arith)) (
            Within-if (e == b'r') (leaves {rest = es} (omega arith)) (
              Within-if (e == b't') (leaves {rest = es} (omega arith)) (
                Within-if (e == b'u') (unicode_escape-Within w es)
                  (refuses {rest = e ∷ es} refl)))))))

prepend-Within :
    (n : ℕ) (out : Bytes) {r : Result (Bytes × Bytes)} → Within n r → Within n (prepend out r)
prepend-Within n out (leaves h) = leaves h
prepend-Within n out (refuses h) = refuses h

-- The loop never lacks fuel with a round for each byte.
pub escapes-Within :
    (w : Bool) (f : ℕ) (bs : Bytes) → length bs ≤ f → Within (suc (length bs)) (escapes w f bs)
unfolding escapes
escapes-Within w f [] h = refuses refl
escapes-Within w zero (c ∷ cs) h = absurd (omega arith)
escapes-Within w (suc f) (c ∷ cs) h =
    let n = suc (suc (length cs)) in
    let after = λ (out : Bytes) (rest : Bytes) (l : length rest < length cs).
      prepend-Within n out
        (Within-mono (suc (length rest)) n (escapes-Within w f rest (omega arith)) (omega arith)) in
    Within-if (c == b'"') (leaves {rest = cs} (omega arith)) (
      Within-if (ltb c 0x20) (refuses {rest = c ∷ cs} refl) (
        Within-if (c == b'\\')
          (Within-bind (length cs) n (λ p. prepend p.0 (escapes w f p.1)) (unescape-Within w cs)
            after)
          (prepend-Within n (c ∷ [])
            (Within-mono (suc (length cs)) n (escapes-Within w f cs (omega arith)) (omega arith)))))

cleaned-Within :
    (n : ℕ) (w : Bool) (s rest : Bytes) → length rest < n → Within n (cleaned w (s, rest))
cleaned-Within n w s rest h =
    Within-if (not w && not (valid s)) (leaves {rest = rest} h) (leaves {rest = rest} h)

after_plain-Within :
    (w : Bool) (start bs : Bytes) → Within (suc (length bs)) (after_plain w start bs)
unfolding after_plain
after_plain-Within w start [] = unfold escapes in refuses refl
after_plain-Within w start (c ∷ cs) =
    let n = suc (suc (length cs)) in
    Within-if (c == b'"')
      (Within-if (valid start) (leaves {rest = cs} (omega arith))
        (leaves {rest = cs} (omega arith)))
      (Within-bind n n (cleaned w)
        (prepend-Within n start (escapes-Within w (suc (length cs)) (c ∷ cs) (omega arith)))
        (cleaned-Within n w))

pub string_literal-Within : (w : Bool) (bs : Bytes) → Within (suc (length bs)) (string_literal w bs)
unfolding string_literal
string_literal-Within w bs =
    Within-mono (suc (length ((plain_prefix bs).1))) (suc (length bs))
      (after_plain-Within w ((plain_prefix bs).0) ((plain_prefix bs).1))
      (omega (arith, length-plain_prefix bs))
