-- ===== src/Jsonv/Parsed.antt =====
-- internal/jsonv/jsonv.go: what Parse gives is a value of the model.
use pages.Common.{
  Bool, Bool-cases, [], ap, false, if◌then◌else◌, inl, inr, length, refl, suc, sym, text_eq,
  text_eq_iff, true, ℕ, ◌==◌, ◌∙◌, ◌∷◌, ◌≡◌, ◌≢◌,
}
use pages.Jsonv.Canon.{ArePrintable, HasPrintable, IsPrintable}
use pages.Jsonv.Decoding.{to_valid-valid}
use pages.Jsonv.Entries.{Entries, put}
use pages.Jsonv.Orders.{Absent, DistinctKeys}
use pages.Jsonv.Parse.{closed_or, member_name, next_or_close, skip_space}
use pages.Jsonv.Texts.{after_plain, cleaned, escapes, plain_prefix, prepend, string_literal}
use pages.Jsonv.Utf8.{Bytes, to_valid, valid}
use pages.Jsonv.Values.{
  Fields, Items, Message, Result, Value, append_item, cons, end, entries_of, err, expected_colon,
  field, fields_of, nil, ok, unexpected_end, ◌>>=◌,
}

pub data Gives {ℓ κ} {A : Type ℓ} (P : A → Type κ) : Result (A × Bytes) → Type (ℓ ⊔ κ) where
  gives : {a : A} {rest : Bytes} → P a → Gives P (ok (a, rest))
  nothing : {m : Message} {rest : Bytes} → Gives P (err m rest)

abbrev pub GivesText : Result (Bytes × Bytes) → Type 0
GivesText = Gives (λ s. valid s ≡ true)

pub Gives-bind {ℓ κ μ} :
    {A : Type ℓ} {B : Type κ} {P : B → Type μ} (r : Result (A × Bytes))
    (g : A × Bytes → Result (B × Bytes))
    → ((a : A) (rest : Bytes) → Gives P (g (a, rest)))
    → Gives P (r >>= g)
Gives-bind (ok (a, rest)) g k = k a rest
Gives-bind (err m rest) g k = nothing

-- The same, with what the first result gives.
pub Gives-then {ℓ κ μ ν} :
    {A : Type ℓ} {B : Type κ} {Q : A → Type ν} {P : B → Type μ} {r : Result (A × Bytes)}
    (g : A × Bytes → Result (B × Bytes))
    → Gives Q r
    → ((a : A) (rest : Bytes) → Q a → Gives P (g (a, rest)))
    → Gives P (r >>= g)
Gives-then g (gives {a} {rest} q) k = k a rest q
Gives-then g nothing k = nothing

pub Gives-if {ℓ κ} :
    {A : Type ℓ} {P : A → Type κ} (b : Bool) {r s : Result (A × Bytes)}
    → Gives P r
    → Gives P s
    → Gives P (if b then r else s)
Gives-if true h k = h
Gives-if false h k = k

cleaned-GivesText : (s rest : Bytes) → GivesText (cleaned false (s, rest))
cleaned-GivesText s rest = elim (Bool-cases (valid s)) [
  | inl v ↦ rw v (gives v)
  | inr bad ↦ rw bad (gives (to_valid-valid s))
]

after_plain-GivesText : (start bs : Bytes) → GivesText (after_plain false start bs)
unfolding after_plain
after_plain-GivesText start [] =
    Gives-bind (prepend start (escapes false 0 [])) (cleaned false) cleaned-GivesText
after_plain-GivesText start (c ∷ cs) =
    let closed : GivesText (if valid start then ok (start, cs) else ok (to_valid start, cs)) =
      elim (Bool-cases (valid start)) [
        | inl v ↦ rw v (gives v)
        | inr bad ↦ rw bad (gives (to_valid-valid start))
      ] in
    Gives-if (c == b'"') closed (
      Gives-bind (prepend start (escapes false (suc (length cs)) (c ∷ cs))) (cleaned false)
        cleaned-GivesText)

pub string_literal-GivesText : (bs : Bytes) → GivesText (string_literal false bs)
unfolding string_literal
string_literal-GivesText bs = after_plain-GivesText ((plain_prefix bs).0) ((plain_prefix bs).1)

pub member_name-GivesText : (bs : Bytes) → GivesText (member_name false bs)
unfolding member_name
member_name-GivesText [] = nothing
member_name-GivesText (c ∷ cs) =
    Gives-if (c == b'"')
      (Gives-then _ (string_literal-GivesText cs) (λ k rest v. colon k v (skip_space rest)))
      (nothing {rest = c ∷ cs})
  where
    colon :
        (k : Bytes)
        → valid k ≡ true
        → (t : Bytes)
        → GivesText (elim t as (λ _. Result (Bytes × Bytes)) [
          | [] ↦ err expected_colon []
          | d ∷ ds ↦ if d == b':' then ok (k, ds) else err expected_colon (d ∷ ds)
        ])
    colon k v [] = nothing
    colon k v (d ∷ ds) = Gives-if (d == b':') (gives {rest = ds} v) (nothing {rest = d ∷ ds})

module _ {ℓ κ} {A : Type ℓ} (P : A → Type κ) where
  pub closed_or-Gives :
      (close : ℕ) (empty : A) (loop : Bytes → Result (A × Bytes)) (bs : Bytes)
      → P empty
      → ((cs : Bytes) → Gives P (loop cs))
      → Gives P (closed_or close empty loop bs)
  unfolding closed_or
  closed_or-Gives close empty loop bs p h = go (skip_space bs)
    where
      go :
          (cs : Bytes)
          → Gives P (elim cs as (λ _. Result (A × Bytes)) [
            | [] ↦ loop []
            | c ∷ cs' ↦ if c == close then ok (empty, cs') else loop (c ∷ cs')
          ])
      go [] = h []
      go (c ∷ cs') = Gives-if (c == close) (gives {rest = cs'} p) (h (c ∷ cs'))

  pub next_or_close-Gives :
      (m : Message) (close : ℕ) (done : A) (loop : Bytes → Result (A × Bytes)) (bs : Bytes)
      → P done
      → ((cs : Bytes) → Gives P (loop cs))
      → Gives P (next_or_close m close done loop bs)
  unfolding next_or_close
  next_or_close-Gives m close done loop bs p h = go (skip_space bs)
    where
      go :
          (cs : Bytes)
          → Gives P (elim cs as (λ _. Result (A × Bytes)) [
            | [] ↦ err unexpected_end []
            | c ∷ cs' ↦
                if c == b','
                then loop cs'
                else if c == close
                then ok (done, cs')
                else err m (c ∷ cs')
          ])
      go [] = nothing
      go (c ∷ cs') =
          Gives-if (c == b',') (h cs')
            (Gives-if (c == close) (gives {rest = cs'} p) (nothing {rest = c ∷ cs'}))

-- Keys stay distinct.
Absent-put {ℓ} :
    {V : Type ℓ} (j k : Bytes) (v : V) (es : Entries V)
    → j ≢ k
    → Absent j es
    → Absent j (put k v es)
unfolding put
Absent-put j k v [] n h = (n, tt)
Absent-put j k v ((i, u) ∷ es) n h = elim (Bool-cases (text_eq i k)) [
  | inl e ↦ rw e h
  | inr e ↦ rw e (h.0, Absent-put j k v es n h.1)
]

pub DistinctKeys-put {ℓ} :
    {V : Type ℓ} (k : Bytes) (v : V) (es : Entries V) → DistinctKeys es → DistinctKeys (put k v es)
unfolding put
DistinctKeys-put k v [] h = (tt, tt)
DistinctKeys-put k v ((i, u) ∷ es) h = elim (Bool-cases (text_eq i k)) [
  | inl e ↦ rw e h
  | inr e ↦ rw e (
    Absent-put i k v es (λ p. differ (sym e ∙ (text_eq_iff i k).1 p)) h.0,
    DistinctKeys-put k v es h.1,
  )
]
  where
    differ : false ≡ true → ⊥
    differ p = cc

module _ {D : Type 0} where
  fields_of-entries_of : (fs : Fields D) → fields_of (entries_of fs) ≡ fs
  fields_of-entries_of end = refl
  fields_of-entries_of (field k v fs) = ap (field k v) (fields_of-entries_of fs)

  pub HasPrintable-put :
      (depth : ℕ) (k : Bytes) (v : Value D) (fs : Fields D)
      → valid k ≡ true
      → IsPrintable depth v
      → HasPrintable depth fs
      → HasPrintable depth (fields_of (put k v (entries_of fs)))
  unfolding IsPrintable put
  HasPrintable-put depth k v end e p h = (e, p, tt)
  HasPrintable-put depth k v (field j u fs) e p h = elim (Bool-cases (text_eq j k)) [
    | inl same ↦ rw (same, fields_of-entries_of fs) (h.0, p, h.2)
    | inr other ↦ rw other (h.0, h.1, HasPrintable-put depth k v fs e p h.2)
  ]

  pub ArePrintable-append_item :
      (depth : ℕ) (v : Value D) (xs : Items D)
      → IsPrintable depth v
      → ArePrintable depth xs
      → ArePrintable depth (append_item v xs)
  unfolding IsPrintable append_item
  ArePrintable-append_item depth v nil p h = (p, tt)
  ArePrintable-append_item depth v (cons x xs) p h =
      (h.0, ArePrintable-append_item depth v xs p h.1)
