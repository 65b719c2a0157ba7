-- ===== src/Jsonv/Output.antt =====
-- internal/jsonv/jsonv.go: what `Stringify` writes is valid UTF-8.
use pages.Common.{
  All, Bool, List, Option, [], arith, codes, false, inl, inr, map, none, refl, some, true, ℕ, ◌++◌,
  ◌<◌, ◌∙◌, ◌∷◌, ◌≡◌,
}
use pages.Common.Strings.{only_digits}
use pages.Jsonv.Entries.{Entries, enumerate}
use pages.Jsonv.Literals.{regular_literal}
use pages.Jsonv.Numbers.{Doubles, Kind, infinite, not_a_number, regular, write_number, zero_number}
use pages.Jsonv.Numerals.{
  IsExponent, IsLiteral, IsWhole, Literal, exponent_text, fraction_text, literal_text, sign_text,
}
use pages.Jsonv.Orders.{All-enumerate}
use pages.Jsonv.Plain.{IsAscii, IsText}
use pages.Jsonv.Print.{field_texts, item_texts, join, member_text, stringify}
use pages.Jsonv.Reading.{Rounds}
use pages.Jsonv.Scalars.{infinite-Written, nan-Written, regular-Written, zero-Written}
use pages.Jsonv.Texts.{quote}
use pages.Jsonv.Utf8.{Bytes, valid, valid_from}
use pages.Jsonv.Values.{
  Fields, Items, Value, arr, boolean, cons, end, field, nil, null, num, obj, str,
}
use pages.Jsonv.Written.{quote-IsText, valid-ascii}
use mathlib.Core.List.{append-nil, append_assoc}

IsText-append : (a b : Bytes) → IsText a → IsText b → IsText (a ++ b)
IsText-append a b h k more = rw (append_assoc a b more) (h (b ++ more) ∙ k more)

IsText-ascii : (t : Bytes) → IsAscii t → IsText t
IsText-ascii t h more = valid-ascii t more h

IsText-cons : (c : ℕ) (t : Bytes) → c < 128 → IsText t → IsText (c ∷ t)
IsText-cons c t l h = IsText-append (c ∷ []) t (IsText-ascii (c ∷ []) (l, tt)) h

-- What stands between two brackets.
IsText-between : (a b : ℕ) (t : Bytes) → a < 128 → b < 128 → IsText t → IsText (a ∷ t ++ b ∷ [])
IsText-between a b t l k h =
    IsText-cons a (t ++ b ∷ []) l (IsText-append t (b ∷ []) h (IsText-ascii (b ∷ []) (k, tt)))

digits-IsAscii : (t : Bytes) → only_digits t ≡ true → IsAscii t
unfolding only_digits
digits-IsAscii [] h = tt
digits-IsAscii (c ∷ t) h =
    let rest : only_digits t ≡ true = ground arith in (ground arith, digits-IsAscii t rest)

sign_text-IsText : (s : Bool) → IsText (sign_text s)
sign_text-IsText true = IsText-ascii (b'-' ∷ []) (omega arith, tt)
sign_text-IsText false = IsText-ascii [] tt

whole-IsAscii : (w : Bytes) → IsWhole w → IsAscii w
whole-IsAscii [] h = absurd h
whole-IsAscii (c ∷ cs) (inl (e, z)) = rw (e, z) (omega arith, tt)
whole-IsAscii (c ∷ cs) (inr (e, z)) = (ground arith, digits-IsAscii cs z)

fraction_text-IsText : (f : Bytes) → only_digits f ≡ true → IsText (fraction_text f)
fraction_text-IsText [] h = IsText-ascii [] tt
fraction_text-IsText (c ∷ cs) h =
    IsText-ascii (b'.' ∷ c ∷ cs) (omega arith, digits-IsAscii (c ∷ cs) h)

exponent_text-IsText : (e : Option (ℕ × Bytes)) → IsExponent e → IsText (exponent_text e)
exponent_text-IsText none h = IsText-ascii [] tt
exponent_text-IsText (some (sign, [])) h = absurd h
exponent_text-IsText (some (sign, c ∷ cs)) h =
    IsText-ascii (b'e' ∷ sign ∷ c ∷ cs)
      (omega arith, (ground (arith, h.0), digits-IsAscii (c ∷ cs) h.1))

literal_text-IsText : (l : Literal) → IsLiteral l → IsText (literal_text l)
literal_text-IsText l h =
    let tail =
      IsText-append (fraction_text l.fraction) (exponent_text l.exponent)
        (fraction_text-IsText l.fraction h.fraction_ok)
        (exponent_text-IsText l.exponent h.exponent_ok) in
    IsText-append (sign_text l.negative) _ (sign_text-IsText l.negative)
      (IsText-append l.whole _ (IsText-ascii l.whole (whole-IsAscii l.whole h.whole_ok)) tail)

join-IsText : (ts : List Bytes) → All IsText ts → IsText (join ts)
unfolding join
join-IsText [] h = IsText-ascii [] tt
join-IsText (t ∷ []) h = h.0
join-IsText (t ∷ u ∷ ts) h =
    IsText-append t _ h.0
      (IsText-cons b',' (join (u ∷ ts)) (omega arith) (join-IsText (u ∷ ts) h.1))

member_text-IsText : (m : Bytes × Bytes) → IsText m.1 → IsText (member_text m)
member_text-IsText m h =
    IsText-append (quote m.0) _ (quote-IsText m.0) (IsText-cons b':' m.1 (omega arith) h)

member_texts-IsText :
    (es : Entries Bytes) → All (λ m. IsText m.1) es → All IsText (map member_text es)
member_texts-IsText [] h = tt
member_texts-IsText (m ∷ es) h = (member_text-IsText m h.0, member_texts-IsText es h.1)

module _ {F : Doubles} (R : Rounds F) where
  open F use {Double}

  write_number-IsText : (d : Double) → IsText (write_number F d)
  write_number-IsText d = kinds (F.kind_of d) refl
    where
      null_text : IsText (codes "null")
      null_text =
          IsText-ascii (codes "null") (omega arith, (omega arith, (omega arith, (omega arith, tt))))

      kinds : (k : Kind) → F.kind_of d ≡ k → IsText (write_number F d)
      kinds not_a_number k = rw (nan-Written R d k).0 null_text
      kinds (infinite n) k = rw (infinite-Written R d n k).0 null_text
      kinds zero_number k = rw (zero-Written R d k).0 (IsText-ascii (codes "0") (omega arith, tt))
      kinds (regular s) k =
          let (l, text, good, same) = regular_literal R d s k in
          rw ((regular-Written R d s k).0, text) (literal_text-IsText l good)

  mutual
    unfolding stringify item_texts field_texts

    stringify-IsText : (v : Value Double) → IsText (stringify F v)
    stringify-IsText null =
        IsText-ascii (codes "null") (omega arith, (omega arith, (omega arith, (omega arith, tt))))
    stringify-IsText (boolean true) =
        IsText-ascii (codes "true") (omega arith, (omega arith, (omega arith, (omega arith, tt))))
    stringify-IsText (boolean false) =
        IsText-ascii (codes "false")
          (omega arith, (omega arith, (omega arith, (omega arith, (omega arith, tt)))))
    stringify-IsText (num d) = write_number-IsText d
    stringify-IsText (str s) = quote-IsText s
    stringify-IsText (arr xs) =
        IsText-between b'[' b']' (join (item_texts F xs)) (omega arith) (omega arith)
          (join-IsText (item_texts F xs) (item_texts-IsText xs))
    stringify-IsText (obj fs) =
        let members = enumerate (field_texts F fs) in
        IsText-between b'{' b'}' (join (map member_text members)) (omega arith) (omega arith) (
          join-IsText (map member_text members) (
            member_texts-IsText members
              (All-enumerate (λ m. IsText m.1) (field_texts F fs) (field_texts-IsText fs))))

    item_texts-IsText : (xs : Items Double) → All IsText (item_texts F xs)
    item_texts-IsText nil = tt
    item_texts-IsText (cons x xs) = (stringify-IsText x, item_texts-IsText xs)

    field_texts-IsText : (fs : Fields Double) → All (λ m. IsText m.1) (field_texts F fs)
    field_texts-IsText end = tt
    field_texts-IsText (field k v fs) = (stringify-IsText v, field_texts-IsText fs)

  -- What `Stringify` writes is valid UTF-8 for every value, also where a string or a key in it holds
  -- lone surrogates or broken sequences. Numbers are as `Rounds` says.
  pub stringify-valid : (v : Value Double) → valid (stringify F v) ≡ true
  stringify-valid v =
      let nothing : valid [] ≡ true = unfold valid valid_from in refl in
      rw (append-nil (stringify F v)) at (stringify-IsText v []) ∙ nothing
