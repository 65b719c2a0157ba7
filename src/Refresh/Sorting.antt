-- ===== src/Refresh/Sorting.antt =====
-- internal/versions/refreshhealth.go: the order of the report.
use pages.Common.{
  All, All-map, Bool, Bool-cases, List, Text, [], ap, arith, false, if◌then◌else◌, inl, inr, ltb,
  none, not, refl, some, suc, sym, true, ℕ, ◌&&◌, ◌==◌, ◌||◌, ◌∙◌, ◌∷◌, ◌≡◌,
}
use pages.Refresh.Freshness.{Stamp, after, is_zero}
use pages.Refresh.Report.{
  HealthRow, collect, health_rank, insert_row, list_refresh_health, no_counts, row_less, same_bool,
  same_stamp, sort_rows, text_less,
}

-- The order of texts.
text_less_trans :
    (a b c : Text) → text_less b a ≡ false → text_less c b ≡ false → text_less c a ≡ false
unfolding text_less
text_less_trans [] b c e f = refl
text_less_trans (x ∷ a) [] c e f = cc
text_less_trans (x ∷ a) (y ∷ b) [] e f = cc
text_less_trans (x ∷ a) (y ∷ b) (z ∷ c) e f = let more = text_less_trans a b c in ground arith

text_less_asym : (a b : Text) → text_less a b ≡ true → text_less b a ≡ false
unfolding text_less
text_less_asym a [] e = cc
text_less_asym [] (y ∷ b) e = refl
text_less_asym (x ∷ a) (y ∷ b) e = let more = text_less_asym a b in ground arith

abbrev source_key : Bool → Stamp → ℕ
source_key true none = 0
source_key true (some t) = suc t
source_key false t = 0

abbrev hint_key : Bool → ℕ
hint_key true = 0
hint_key false = 1

abbrev since_key : Stamp → Text → Text
since_key none slug = 1 ∷ 0 ∷ slug
since_key (some t) slug = 0 ∷ t ∷ slug

-- What the report is ordered by: the worst health, the hinted rows with the oldest data, the oldest
-- problem with the rows of unknown age last, the slug.
abbrev pub row_key : HealthRow → Text
row_key r =
    health_rank r.row_health
    ∷ hint_key r.hinted
    ∷ source_key r.hinted r.row_source
    ∷ since_key r.row_since r.slug

if-not : (b x y : Bool) → (if not b then x else y) ≡ (if b then y else x)
if-not true x y = refl
if-not false x y = refl

since-key :
    (t u : Stamp) (a b : Text)
    → (if not (same_stamp t u)
        then (if is_zero t || is_zero u then is_zero u else after u t)
        else text_less a b)
      ≡ text_less (since_key t a) (since_key u b)
unfolding text_less
since-key none none a b = refl
since-key none (some u) a b = refl
since-key (some t) none a b = refl
since-key (some t) (some u) a b = if-not (t == u) (ltb t u) (text_less a b)

hint-key :
    (h k : Bool) (s t : Stamp) (m n : Text)
    → (if not (same_bool h k)
        then h
        else (if h && not (same_stamp s t) then after t s else text_less m n))
      ≡ text_less (hint_key h ∷ source_key h s ∷ m) (hint_key k ∷ source_key k t ∷ n)
unfolding text_less
hint-key true true none none m n = refl
hint-key true true none (some t) m n = ground arith
hint-key true true (some s) none m n = ground arith
hint-key true true (some s) (some t) m n = ground arith
hint-key true false s t m n = refl
hint-key false true s t m n = refl
hint-key false false s t m n = refl

-- The comparison of the sort is the order of the keys.
pub row_less-key : (a b : HealthRow) → row_less a b ≡ text_less (row_key a) (row_key b)
unfolding row_less text_less
row_less-key a b =
    let p = health_rank a.row_health in
    let q = health_rank b.row_health in
    let more =
      hint-key a.hinted b.hinted a.row_source b.row_source (since_key a.row_since a.slug)
        (since_key b.row_since b.slug) in
    ap
      (λ x.
        if not (p == q)
        then ltb p q
        else (if not (same_bool a.hinted b.hinted)
            then a.hinted
            else (if a.hinted && not (same_stamp a.row_source b.row_source)
                then after b.row_source a.row_source
                else x)))
      (since-key a.row_since b.row_since a.slug b.slug)
    ∙ ap (λ x. if not (p == q) then ltb p q else x) more
    ∙ if-not (p == q) (ltb p q) (
        text_less
          (hint_key a.hinted ∷ source_key a.hinted a.row_source ∷ since_key a.row_since a.slug)
          (hint_key b.hinted ∷ source_key b.hinted b.row_source ∷ since_key b.row_since b.slug))

abbrev pub Le : HealthRow → HealthRow → Type 0
Le a b = row_less b a ≡ false

Le-trans : (a b c : HealthRow) → Le a b → Le b c → Le a c
Le-trans a b c e f =
    row_less-key c a
    ∙ text_less_trans (row_key a) (row_key b) (row_key c) (sym (row_less-key b a) ∙ e)
        (sym (row_less-key c b) ∙ f)

Le-asym : (a b : HealthRow) → row_less a b ≡ true → Le a b
Le-asym a b e =
    row_less-key b a ∙ text_less_asym (row_key a) (row_key b) (sym (row_less-key a b) ∙ e)

-- No row comes before an earlier one in the order.
abbrev pub Sorted : List HealthRow → Type 0
Sorted [] = Unit
Sorted (r ∷ rs) = All (Le r) rs × Sorted rs

insert_row-All :
    (P : HealthRow → Type 0) (r : HealthRow) (xs : List HealthRow)
    → P r
    → All P xs
    → All P (insert_row r xs)
unfolding insert_row
insert_row-All P r [] p h = (p, tt)
insert_row-All P r (x ∷ xs) p h = elim (Bool-cases (row_less x r)) [
  | inl e ↦ rw e (h.0, insert_row-All P r xs p h.1)
  | inr e ↦ rw e (p, h)
]

insert_row-Sorted : (r : HealthRow) (xs : List HealthRow) → Sorted xs → Sorted (insert_row r xs)
unfolding insert_row
insert_row-Sorted r [] h = (tt, tt)
insert_row-Sorted r (x ∷ xs) h = elim (Bool-cases (row_less x r)) [
  | inl e ↦ rw e (insert_row-All (Le x) r xs (Le-asym x r e) h.0, insert_row-Sorted r xs h.1)
  | inr e ↦ rw e ((e, All-map xs (λ y l. Le-trans r x y e l) h.0), h)
]

sort_rows-Sorted : (xs : List HealthRow) → Sorted (sort_rows xs)
unfolding sort_rows
sort_rows-Sorted [] = tt
sort_rows-Sorted (x ∷ xs) = insert_row-Sorted x (sort_rows xs) (sort_rows-Sorted xs)

-- The report is ordered: no row comes before an earlier one, and the comparison is the order of the
-- keys, which are the rank of the health, then the hinted rows first and with the oldest data first,
-- then the oldest problem with unknown ages last, then the slug.
pub list_refresh_health-Sorted :
    (only : Bool) (pages : List HealthRow)
    → Sorted (list_refresh_health only pages).1
      × ((a b : HealthRow) → row_less a b ≡ text_less (row_key a) (row_key b))
unfolding list_refresh_health
list_refresh_health-Sorted only pages =
    (sort_rows-Sorted (collect only no_counts pages).1, row_less-key)
