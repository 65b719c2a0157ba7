-- ===== src/Jsonv/Loops.antt =====
-- internal/jsonv/jsonv.go: the loops of `array` and `object` on what `write` writes.
use pages.Common.{
  All, Bool, List, [], ap, arith, length, length-append, map, refl, suc, sym, true, zero, ℕ, ◌*◌,
  ◌++◌, ◌<◌, ◌∙◌, ◌∷◌, ◌≡◌,
}
use pages.Jsonv.Entries.{Entries, put}
use pages.Jsonv.Mapped.{map_values}
use pages.Jsonv.Numbers.{Doubles}
use pages.Jsonv.Numerals.{Delimited}
use pages.Jsonv.Orders.{DistinctKeys, put-new}
use pages.Jsonv.Parse.{elements, member_name, members, next_or_close, skip_space}
use pages.Jsonv.Print.{join, member_text}
use pages.Jsonv.Quoting.{quote-valid, string_literal-quote}
use pages.Jsonv.Reading.{Rounds}
use pages.Jsonv.Scalars.{Reads, skip_space-Opens}
use pages.Jsonv.Texts.{escape_all, quote, string_literal}
use pages.Jsonv.Utf8.{Bytes, valid}
use pages.Jsonv.Values.{
  Fields, Items, Message, Result, Value, append_item, arr, cons, entries_of,
  expected_comma_or_brace, expected_comma_or_bracket, fields_of, nil, obj, ok,
}
use mathlib.Core.Path.{subst}
use mathlib.Core.List.{append_assoc}

abbrev pub items_of : {D : Type 0} → List (Value D) → Items D
items_of [] = nil
items_of (v ∷ vs) = cons v (items_of vs)

abbrev pub concat_items : {D : Type 0} → Items D → Items D → Items D
concat_items nil ys = ys
concat_items (cons x xs) ys = cons x (concat_items xs ys)

concat_items-append_item :
    {D : Type 0} (v : Value D) (xs ys : Items D)
    → concat_items (append_item v xs) ys ≡ concat_items xs (cons v ys)
unfolding append_item
concat_items-append_item v nil ys = refl
concat_items-append_item v (cons x xs) ys = ap (cons x) (concat_items-append_item v xs ys)

pub entries_of-fields_of : {D : Type 0} (es : Entries (Value D)) → entries_of (fields_of es) ≡ es
entries_of-fields_of [] = refl
entries_of-fields_of ((k, v) ∷ es) = ap (◌∷◌ (k, v)) (entries_of-fields_of es)

append_item-concat :
    {D : Type 0} (v : Value D) (xs : Items D) → append_item v xs ≡ concat_items xs (cons v nil)
unfolding append_item
append_item-concat v nil = refl
append_item-concat v (cons x xs) = ap (cons x) (append_item-concat v xs)

-- What the loops do at a comma, and at the bracket that closes them.
module _ {ℓ} {A : Type ℓ} (done : A) (loop : Bytes → Result (A × Bytes)) (rest : Bytes) where
  close_array :
      next_or_close expected_comma_or_bracket b']' done loop (b']' ∷ rest) ≡ ok (done, rest)
  unfolding next_or_close
  close_array = refl

  close_object :
      next_or_close expected_comma_or_brace b'}' done loop (b'}' ∷ rest) ≡ ok (done, rest)
  unfolding next_or_close
  close_object = refl

after_comma {ℓ} :
    {A : Type ℓ} (m : Message) (close : ℕ) (done : A) (loop : Bytes → Result (A × Bytes))
    (rest : Bytes)
    → next_or_close m close done loop (b',' ∷ rest) ≡ loop rest
unfolding next_or_close
after_comma m close done loop rest = refl

member_text-append :
    (k t rest : Bytes)
    → valid k ≡ true
    → member_text (k, t) ++ rest ≡ b'"' ∷ escape_all k ++ b'"' ∷ (b':' ∷ t ++ rest)
member_text-append k t rest h =
    append_assoc (quote k) (b':' ∷ t) rest ∙ quote-valid k (b':' ∷ t ++ rest) h

length-member_text : (k t : Bytes) → length t < length (member_text (k, t))
length-member_text k t = omega (arith, length-append (quote k) (b':' ∷ t))

member_name-quoted :
    (w : Bool) (k cs rest : Bytes)
    → string_literal w cs ≡ ok (k, b':' ∷ rest)
    → member_name w (skip_space (b'"' ∷ cs)) ≡ ok (k, rest)
unfolding member_name
member_name-quoted w k cs rest h = rw h refl

member_name-text :
    (w : Bool) (k t rest : Bytes)
    → valid k ≡ true
    → member_name w (skip_space (member_text (k, t) ++ rest)) ≡ ok (k, t ++ rest)
member_name-text w k t rest h = rw (member_text-append k t rest h) (
    member_name-quoted w k (escape_all k ++ b'"' ∷ (b':' ∷ t ++ rest)) (t ++ rest)
      (string_literal-quote w k (b':' ∷ t ++ rest) h))

module _ {F : Doubles} (R : Rounds F) (w : Bool) where
  open F use {Double}

  -- The texts of values, each with the value that is read from it.
  abbrev pub Pairs : Type 0
  Pairs = List (Bytes × Value Double)

  -- One round of `array`.
  elements-round :
      (f depth : ℕ) (xs : Items Double) (t : Bytes) (v : Value Double) (rest : Bytes)
      → Reads R w (suc depth) t v
      → 2 * length t < f
      → Delimited rest
      → elements F w (suc f) depth xs (t ++ rest)
        ≡ next_or_close expected_comma_or_bracket b']'
            (arr (append_item v xs))
            (elements F w f depth (append_item v xs))
            rest
  unfolding elements
  elements-round f depth xs t v rest h b n = rw (skip_space-Opens t rest h.0, h.1 f rest b n) refl

  pub elements-join :
      (f depth : ℕ) (xs : Items Double) (t : Bytes) (v : Value Double) (ts : Pairs) (rest : Bytes)
      → Reads R w (suc depth) t v
      → All (λ p. Reads R w (suc depth) p.0 p.1) ts
      → suc (2 * length (join (t ∷ map (λ p. p.0) ts))) < f
      → elements F w f depth xs (join (t ∷ map (λ p. p.0) ts) ++ b']' ∷ rest)
        ≡ ok (arr (concat_items xs (cons v (items_of (map (λ p. p.1) ts)))), rest)
  unfolding join
  elements-join zero depth xs t v ts rest h hs b = absurd (omega arith)
  elements-join (suc f) depth xs t v [] rest h hs b =
      rw (elements-round f depth xs t v (b']' ∷ rest) h (omega arith) (refl, refl, refl)) (
        close_array (arr (append_item v xs)) (elements F w f depth (append_item v xs)) rest
        ∙ ap (λ ys. ok (arr ys, rest)) (append_item-concat v xs))
  elements-join (suc f) depth xs t v ((u, x) ∷ ts) rest h hs b =
      let texts = join (u ∷ map (λ p. p.0) ts) in
      let long = length-append t (b',' ∷ texts) in
      let xs' = append_item v xs in
      rw
        (
          append_assoc t (b',' ∷ texts) (b']' ∷ rest),
          elements-round f depth xs t v (b',' ∷ texts ++ b']' ∷ rest) h (omega arith)
              (refl, refl, refl),
        )
        (after_comma expected_comma_or_bracket b']' (arr xs') (elements F w f depth xs')
            (texts ++ b']' ∷ rest)
          ∙ (elements-join f depth xs' u x ts rest hs.0 hs.1 (omega arith)
              ∙ ap (λ ys. ok (arr ys, rest))
                  (concat_items-append_item v xs (cons x (items_of (map (λ p. p.1) ts))))))

  -- The texts of the values of an object's members, under their names.
  abbrev pub Members : Type 0
  Members = Entries (Bytes × Value Double)

  abbrev pub ReadsMember : ℕ → Bytes × (Bytes × Value Double) → Type 0
  ReadsMember depth m = (valid m.0 ≡ true) × Reads R w depth (m.1).0 (m.1).1

  -- One round of `object`.
  members-round :
      (f depth : ℕ) (o : Fields Double) (k t : Bytes) (v : Value Double) (rest : Bytes)
      → ReadsMember (suc depth) (k, (t, v))
      → 2 * length t < f
      → Delimited rest
      → members F w (suc f) depth o (member_text (k, t) ++ rest) ≡ (
          let o' = fields_of (put k v (entries_of o)) in
          next_or_close expected_comma_or_brace b'}' (obj o') (members F w f depth o') rest)
  unfolding members
  members-round f depth o k t v rest h b n =
      rw (member_name-text w k t rest h.0, skip_space-Opens t rest (h.1).0, (h.1).1 f rest b n) refl

  pub members-join :
      (f depth : ℕ) (o : Entries (Value Double)) (k t : Bytes) (v : Value Double) (ts : Members)
      (rest : Bytes)
      → ReadsMember (suc depth) (k, (t, v))
      → All (ReadsMember (suc depth)) ts
      → DistinctKeys (o ++ (k, v) ∷ map_values (λ p. p.1) ts)
      → suc (2 * length (join (map member_text ((k, t) ∷ map_values (λ p. p.0) ts)))) < f
      → members F w f depth
          (fields_of o)
          (join (map member_text ((k, t) ∷ map_values (λ p. p.0) ts)) ++ b'}' ∷ rest)
        ≡ ok (obj (fields_of (o ++ (k, v) ∷ map_values (λ p. p.1) ts)), rest)
  unfolding join
  members-join zero depth o k t v ts rest h hs d b = absurd (omega arith)
  members-join (suc f) depth o k t v [] rest h hs d b =
      let added = put-new k v o [] d in
      rw
        (
          members-round f depth (fields_of o) k t v (b'}' ∷ rest) h
              (omega (arith, length-member_text k t)) (refl, refl, refl),
          entries_of-fields_of o,
          added,
        )
        (close_object (obj (fields_of (o ++ (k, v) ∷ [])))
          (members F w f depth (fields_of (o ++ (k, v) ∷ []))) rest)
  members-join (suc f) depth o k t v ((j, (u, x)) ∷ ts) rest h hs d b =
      let texts = join (map member_text ((j, u) ∷ map_values (λ p. p.0) ts)) in
      let long = length-append (member_text (k, t)) (b',' ∷ texts) in
      let es = (j, x) ∷ map_values (λ p. p.1) ts in
      let added = put-new k v o es d in
      let o' = o ++ (k, v) ∷ [] in
      let whole : o' ++ es ≡ o ++ (k, v) ∷ es = append_assoc o ((k, v) ∷ []) es in
      rw
        (
          append_assoc (member_text (k, t)) (b',' ∷ texts) (b'}' ∷ rest),
          members-round f depth (fields_of o) k t v (b',' ∷ texts ++ b'}' ∷ rest) h
              (omega (arith, length-member_text k t)) (refl, refl, refl),
          entries_of-fields_of o,
          added,
        )
        (after_comma expected_comma_or_brace b'}' (obj (fields_of o'))
            (members F w f depth (fields_of o')) (texts ++ b'}' ∷ rest)
          ∙ (members-join f depth o' j u x ts rest hs.0 hs.1 (subst DistinctKeys (sym whole) d)
                (omega arith)
              ∙ ap (λ ys. ok (obj (fields_of ys), rest)) whole))
