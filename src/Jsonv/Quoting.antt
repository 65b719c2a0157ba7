-- ===== src/Jsonv/Quoting.antt =====
-- internal/jsonv/jsonv.go: a quoted string is read back.
use pages.Common.{
  Bool, Bool-cases, [], ap, arith, false, inl, inr, length, length-append, ltb, refl, suc, sym,
  true, zero, ℕ, ◌++◌, ◌+◌, ◌<◌, ◌==◌, ◌||◌, ◌∙◌, ◌∷◌, ◌≡◌, ◌≤◌,
}
use pages.Jsonv.Escapes.{Escapes, escape_byte-cases, escape_byte-short, unescape-control}
use pages.Jsonv.Texts.{
  after_plain, cleaned, escape_all, escape_byte, escapes, plain_prefix, prepend, quote,
  string_literal,
}
use pages.Jsonv.Utf8.{Bytes, valid}
use pages.Jsonv.Values.{Result, err, ok, ◌>>=◌}
use mathlib.Core.List.{append_assoc, append-nil}

pub cleaned-valid :
    (w : Bool) (s rest : Bytes) → valid s ≡ true → cleaned w (s, rest) ≡ ok (s, rest)
cleaned-valid true s rest h = refl
cleaned-valid false s rest h = rw h refl

-- One round of the loop reads what `WriteString` writes for one byte.
escapes-escape_byte :
    (w : Bool) (f c : ℕ) (rest : Bytes)
    → escapes w (suc f) (escape_byte c ++ rest) ≡ prepend (c ∷ []) (escapes w f rest)
escapes-escape_byte w f c rest = elim (escape_byte-cases c) [
  | inl short ↦ escaped (escape_byte-short w c rest short)
  | inr (inl (low, e)) ↦ escaped (_, e, unescape-control w c rest low)
  | inr (inr (e, quote, backslash, high)) ↦
      rw e (unfold escapes in rw (quote, high, backslash) refl)
]
  where
    escaped :
        Escapes w c rest
        → escapes w (suc f) (escape_byte c ++ rest) ≡ prepend (c ∷ []) (escapes w f rest)
    escaped (e, written, read) = rw written (unfold escapes in rw read refl)

escapes-escape_all :
    (w : Bool) (f : ℕ) (s rest : Bytes)
    → length s < f
    → escapes w f (escape_all s ++ b'"' ∷ rest) ≡ ok (s, rest)
unfolding escape_all
escapes-escape_all w zero s rest h = absurd (omega arith)
escapes-escape_all w (suc f) [] rest h = unfold escapes in refl
escapes-escape_all w (suc f) (c ∷ s) rest h =
    rw
      (
        append_assoc (escape_byte c) (escape_all s) (b'"' ∷ rest),
        escapes-escape_byte w f c (escape_all s ++ b'"' ∷ rest),
        escapes-escape_all w f s rest (omega arith),
      )
      refl

prepend_twice :
    (s t : Bytes) (r : Result (Bytes × Bytes)) → prepend s (prepend t r) ≡ prepend (s ++ t) r
prepend_twice s t (ok (u, rest)) = ap (λ v. ok (v, rest)) (sym (append_assoc s t u))
prepend_twice s t (err m rest) = refl

prepend_none : (r : Result (Bytes × Bytes)) → prepend [] r ≡ r
prepend_none (ok (s, rest)) = refl
prepend_none (err m rest) = refl

pub escapes-plain :
    (w : Bool) (f c : ℕ) (cs : Bytes)
    → (c == b'"' || c == b'\\' || ltb c 0x20) ≡ false
    → escapes w (suc f) (c ∷ cs) ≡ prepend (c ∷ []) (escapes w f cs)
escapes-plain w f c cs h =
    let quote : (c == b'"') ≡ false = ground arith in
    let backslash : (c == b'\\') ≡ false = ground arith in
    let high : ltb c 0x20 ≡ false = ground arith in
    unfold escapes in rw (quote, high, backslash) refl

-- The fast path reads what as many rounds of the loop would.
pub escapes-plain_prefix :
    (w : Bool) (f : ℕ) (bs : Bytes)
    → escapes w (length ((plain_prefix bs).0) + f) bs
      ≡ prepend ((plain_prefix bs).0) (escapes w f ((plain_prefix bs).1))
unfolding plain_prefix
escapes-plain_prefix w f [] = unfold escapes in ground arith
escapes-plain_prefix w f (c ∷ cs) =
    let start = (plain_prefix cs).0 in
    let rest = (plain_prefix cs).1 in
    let ih = escapes-plain_prefix w f cs in
    let count : suc (length start) + f ≡ suc (length start + f) = omega arith in
    elim (Bool-cases (c == b'"' || c == b'\\' || ltb c 0x20)) [
      | inl stop ↦
          let none_read : 0 + f ≡ f = omega arith in
          rw (stop, none_read) (sym (prepend_none (escapes w f (c ∷ cs))))
      | inr plain ↦
          rw (plain, count, escapes-plain w (length start + f) c cs plain, ih)
            (prepend_twice (c ∷ []) start (escapes w f rest))
    ]

pub length-plain_prefix :
    (bs : Bytes) → length ((plain_prefix bs).0) + length ((plain_prefix bs).1) ≡ length bs
unfolding plain_prefix
length-plain_prefix [] = refl
length-plain_prefix (c ∷ cs) = let ih = length-plain_prefix cs in ground arith

ok-parts :
    (s t u v : Bytes)
    → (let r : Result (Bytes × Bytes) = ok (s, t) in r) ≡ ok (u, v)
    → (s ≡ u) × (t ≡ v)
ok-parts s t u v h = (cc, cc)

escapes-quote :
    (w : Bool) (f c : ℕ) (cs : Bytes)
    → (c == b'"') ≡ true
    → escapes w (suc f) (c ∷ cs) ≡ ok ([], cs)
unfolding escapes
escapes-quote w f c cs h = rw h refl

after_plain-escapes :
    (w : Bool) (start bs s rest : Bytes)
    → prepend start (escapes w (length bs) bs) ≡ ok (s, rest)
    → valid s ≡ true
    → after_plain w start bs ≡ ok (s, rest)
unfolding after_plain
after_plain-escapes w start [] s rest h v = ap (λ r. r >>= cleaned w) h ∙ cleaned-valid w s rest v
after_plain-escapes w start (c ∷ cs) s rest h v = elim (Bool-cases (c == b'"')) [
  | inl closed ↦
      let whole : ok (start, cs) ≡ ok (s, rest) =
        ap (λ t. ok (t, cs)) (sym (append-nil start))
        ∙ (ap (prepend start) (sym (escapes-quote w (length cs) c cs closed)) ∙ h) in
      let (same, after) = ok-parts start cs s rest whole in rw (closed, same, after, v) refl
  | inr more ↦ rw more (ap (λ r. r >>= cleaned w) h ∙ cleaned-valid w s rest v)
]

-- What the loop reads from the first byte on, `str` reads by its fast path.
pub string_literal-escapes :
    (w : Bool) (bs s rest : Bytes)
    → escapes w (length bs) bs ≡ ok (s, rest)
    → valid s ≡ true
    → string_literal w bs ≡ ok (s, rest)
unfolding string_literal
string_literal-escapes w bs s rest h v =
    let start = (plain_prefix bs).0 in
    let after = (plain_prefix bs).1 in
    let fast = escapes-plain_prefix w (length after) bs in
    after_plain-escapes w start after s rest (sym fast ∙ (rw (length-plain_prefix bs) h)) v

length-escape_byte : (c : ℕ) → 0 < length (escape_byte c)
length-escape_byte c = elim (escape_byte-cases c) [
  | inl short ↦ let (_, e, _) = escape_byte-short false c [] short in rw e (omega arith)
  | inr (inl (_, e)) ↦ rw e (omega arith)
  | inr (inr (e, _, _, _)) ↦ rw e (omega arith)
]

length-escape_all : (s : Bytes) → length s ≤ length (escape_all s)
unfolding escape_all
length-escape_all [] = omega arith
length-escape_all (c ∷ cs) = omega (
  arith,
  length-append (escape_byte c) (escape_all cs),
  length-escape_byte c,
  length-escape_all cs,
)

-- A valid string, quoted, is read back, whatever follows.
pub string_literal-quote :
    (w : Bool) (s rest : Bytes)
    → valid s ≡ true
    → string_literal w (escape_all s ++ b'"' ∷ rest) ≡ ok (s, rest)
string_literal-quote w s rest v =
    let text = escape_all s ++ b'"' ∷ rest in
    let long : length s < length text =
      omega (arith, length-escape_all s, length-append (escape_all s) (b'"' ∷ rest)) in
    string_literal-escapes w text s rest (escapes-escape_all w (length text) s rest long) v

pub quote-valid :
    (s rest : Bytes) → valid s ≡ true → quote s ++ rest ≡ b'"' ∷ escape_all s ++ b'"' ∷ rest
unfolding quote
quote-valid s rest v = rw v (ap (◌∷◌ b'"') (append_assoc (escape_all s) (b'"' ∷ []) rest))
