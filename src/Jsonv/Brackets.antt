-- ===== src/Jsonv/Brackets.antt =====
-- internal/jsonv/jsonv.go: a written array or object is read back.
use pages.Common.{
  All, Bool, List, [], arith, false, length, length-append, ltb, map, refl, suc, zero, ℕ, ◌*◌, ◌++◌,
  ◌<◌, ◌∷◌, ◌≡◌, ◌≤◌,
}
use pages.Jsonv.Loops.{Members, Pairs, ReadsMember, elements-join, items_of, members-join}
use pages.Jsonv.Mapped.{map_values}
use pages.Jsonv.Numbers.{Doubles}
use pages.Jsonv.Orders.{DistinctKeys}
use pages.Jsonv.Parse.{closed_or, elements, max_depth, members, value}
use pages.Jsonv.Print.{join, member_text}
use pages.Jsonv.Reading.{Rounds}
use pages.Jsonv.Scalars.{Opens, Reads}
use pages.Jsonv.Texts.{quote}
use pages.Jsonv.Utf8.{Bytes}
use pages.Jsonv.Values.{Result, arr, end, fields_of, nil, obj, ok}
use mathlib.Core.List.{append_assoc}

closed_or-array {ℓ} :
    {A : Type ℓ} (empty : A) (loop : Bytes → Result (A × Bytes)) (t rest : Bytes)
    → Opens t
    → closed_or b']' empty loop (t ++ rest) ≡ loop (t ++ rest)
unfolding closed_or
closed_or-array empty loop [] rest h = absurd h
closed_or-array empty loop (c ∷ cs) rest h = rw (closed_or, h.0, h.1) refl

closed_or-object {ℓ} :
    {A : Type ℓ} (empty : A) (loop : Bytes → Result (A × Bytes)) (cs : Bytes)
    → closed_or b'}' empty loop (b'"' ∷ cs) ≡ loop (b'"' ∷ cs)
unfolding closed_or
closed_or-object empty loop cs = refl

closed_or-close {ℓ} :
    {A : Type ℓ} (empty : A) (loop : Bytes → Result (A × Bytes)) (rest : Bytes)
    → (closed_or b']' empty loop (b']' ∷ rest) ≡ ok (empty, rest))
      × (closed_or b'}' empty loop (b'}' ∷ rest) ≡ ok (empty, rest))
unfolding closed_or
closed_or-close empty loop rest = (refl, refl)

join-Opens : (t : Bytes) (ts : List Bytes) → Opens t → Opens (join (t ∷ ts))
unfolding join
join-Opens t [] h = h
join-Opens [] (u ∷ ts) h = absurd h
join-Opens (c ∷ cs) (u ∷ ts) h = h

-- The text of a member, and of all from it on, starts with a quote.
join-member_text :
    (k t : Bytes) (ts : List Bytes) → (cs : Bytes) × (join (member_text (k, t) ∷ ts) ≡ b'"' ∷ cs)
unfolding join quote
join-member_text k t [] = (_, refl)
join-member_text k t (u ∷ ts) = (_, refl)

module _ {F : Doubles} (R : Rounds F) (w : Bool) where
  open F use {Double}

  value-array :
      (f depth : ℕ) (cs : Bytes)
      → depth ≤ max_depth
      → value F w (suc f) depth (b'[' ∷ cs) ≡ closed_or b']' (arr nil) (elements F w f depth nil) cs
  unfolding value
  value-array f depth cs b =
      let shallow : ltb max_depth depth ≡ false = ground arith in rw shallow refl

  value-object :
      (f depth : ℕ) (cs : Bytes)
      → depth ≤ max_depth
      → value F w (suc f) depth (b'{' ∷ cs) ≡ closed_or b'}' (obj end) (members F w f depth end) cs
  unfolding value
  value-object f depth cs b =
      let shallow : ltb max_depth depth ≡ false = ground arith in rw shallow refl

  array_text-read :
      (depth : ℕ) (ts : Pairs R w) (f : ℕ) (rest : Bytes)
      → depth ≤ max_depth
      → All (λ p. Reads R w (suc depth) p.0 p.1) ts
      → 2 * length (b'[' ∷ join (map (λ p. p.0) ts) ++ b']' ∷ []) < f
      → value F w f depth (b'[' ∷ join (map (λ p. p.0) ts) ++ b']' ∷ rest)
        ≡ ok (arr (items_of (map (λ p. p.1) ts)), rest)
  array_text-read depth ts zero rest b h n = absurd (omega arith)
  array_text-read depth [] (suc f) rest b h n =
      rw (value-array f depth (join [] ++ b']' ∷ rest) b)
        (unfold join in (closed_or-close (arr nil) (elements F w f depth nil) rest).0)
  array_text-read depth ((t, v) ∷ ts) (suc f) rest b h n =
      let text = join (t ∷ map (λ p. p.0) ts) in
      let long = length-append text (b']' ∷ []) in
      rw
        (
          value-array f depth (text ++ b']' ∷ rest) b,
          closed_or-array (arr nil) (elements F w f depth nil) text (b']' ∷ rest)
              (join-Opens t (map (λ p. p.0) ts) (h.0).0),
        )
        (elements-join R w f depth nil t v ts rest h.0 h.1 (omega arith))

  object_text-read :
      (depth : ℕ) (ts : Members R w) (f : ℕ) (rest : Bytes)
      → depth ≤ max_depth
      → All (ReadsMember R w (suc depth)) ts
      → DistinctKeys (map_values (λ p. p.1) ts)
      → 2 * length (b'{' ∷ join (map member_text (map_values (λ p. p.0) ts)) ++ b'}' ∷ []) < f
      → value F w f depth (b'{' ∷ join (map member_text (map_values (λ p. p.0) ts)) ++ b'}' ∷ rest)
        ≡ ok (obj (fields_of (map_values (λ p. p.1) ts)), rest)
  object_text-read depth ts zero rest b h d n = absurd (omega arith)
  object_text-read depth [] (suc f) rest b h d n =
      rw (value-object f depth (join [] ++ b'}' ∷ rest) b)
        (unfold join in (closed_or-close (obj end) (members F w f depth end) rest).1)
  object_text-read depth ((k, (t, v)) ∷ ts) (suc f) rest b h d n =
      let text = join (map member_text ((k, t) ∷ map_values (λ p. p.0) ts)) in
      let long = length-append text (b'}' ∷ []) in
      let (cs, quoted) = join-member_text k t (map member_text (map_values (λ p. p.0) ts)) in
      let opened : closed_or b'}' (obj end) (members F w f depth end) (text ++ b'}' ∷ rest)
          ≡ members F w f depth end (text ++ b'}' ∷ rest) =
        rw quoted (closed_or-object (obj end) (members F w f depth end) (cs ++ b'}' ∷ rest)) in
      rw (value-object f depth (text ++ b'}' ∷ rest) b, opened)
        (members-join R w f depth [] k t v ts rest h.0 h.1 d (omega arith))

  pub array_text-Reads :
      (depth : ℕ) (ts : Pairs R w)
      → depth ≤ max_depth
      → All (λ p. Reads R w (suc depth) p.0 p.1) ts
      → Reads R w depth
          (b'[' ∷ join (map (λ p. p.0) ts) ++ b']' ∷ [])
          (arr (items_of (map (λ p. p.1) ts)))
  array_text-Reads depth ts b h =
      let text = join (map (λ p. p.0) ts) in
      (
        (refl, refl),
        λ f rest n _.
            rw (append_assoc text (b']' ∷ []) rest) (array_text-read depth ts f rest b h n),
      )

  pub object_text-Reads :
      (depth : ℕ) (ts : Members R w)
      → depth ≤ max_depth
      → All (ReadsMember R w (suc depth)) ts
      → DistinctKeys (map_values (λ p. p.1) ts)
      → Reads R w depth
          (b'{' ∷ join (map member_text (map_values (λ p. p.0) ts)) ++ b'}' ∷ [])
          (obj (fields_of (map_values (λ p. p.1) ts)))
  object_text-Reads depth ts b h d =
      let text = join (map member_text (map_values (λ p. p.0) ts)) in
      (
        (refl, refl),
        λ f rest n _.
            rw (append_assoc text (b'}' ∷ []) rest) (object_text-read depth ts f rest b h d n),
      )
