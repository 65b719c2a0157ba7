-- ===== src/Versions/Invariant/Slugs.antt =====
-- At most one live page holds a slug: the partial unique index of migrations/002_soft_delete.sql,
-- kept by the code's own checks.
use pages.Common.{
  ==_iff, All, Bool, Bool-cases, List, Option, Text, [], ap, arith, false, inl, inr, none, refl,
  text_eq, text_eq_iff, text_eq_refl, true, ℕ, ◌&&◌, ◌==◌, ◌∷◌, ◌≡◌, ◌≤◌,
}
use pages.Common.Table.{Below, modify, select}
use pages.Versions.Lifecycle.{restore_row}
use pages.Versions.Store.{PageRow, is_live_row}
use mathlib.Core.Path.{subst}

abbrev pub holds_slug : Text → PageRow → Bool
holds_slug slug p = is_live_row p && text_eq p.slug slug

abbrev pub live_in : Text → List PageRow → Option PageRow
live_in slug ps = select (holds_slug slug) ps

abbrev pub UniqueSlugs : List PageRow → Type 0
UniqueSlugs [] = Unit {0}
UniqueSlugs (p ∷ ps) = (is_live_row p ≡ true → live_in p.slug ps ≡ none) × UniqueSlugs ps

-- An update that renames no page and brings none back.
pub record NotReviving (f : PageRow → PageRow) : Type 0 where
  pub same_slug : (p : PageRow) → (f p).slug ≡ p.slug
  pub was_live : (p : PageRow) → is_live_row (f p) ≡ true → is_live_row p ≡ true

live_in-modify :
    (f : PageRow → PageRow) (slug : Text) (id : ℕ) (ps : List PageRow)
    → NotReviving f
    → live_in slug ps ≡ none
    → live_in slug (modify (λ p. p.id) id f ps) ≡ none
unfolding select modify
live_in-modify f slug id [] n h = refl
live_in-modify f slug id (p ∷ ps) n h =
    let rest = live_in-modify f slug id ps n in ground (arith, n.same_slug p, n.was_live p, rest)

pub modify-UniqueSlugs :
    (f : PageRow → PageRow) (id : ℕ) (ps : List PageRow)
    → NotReviving f
    → UniqueSlugs ps
    → UniqueSlugs (modify (λ p. p.id) id f ps)
unfolding modify
modify-UniqueSlugs f id [] n u = tt
modify-UniqueSlugs f id (p ∷ ps) n u = elim (Bool-cases (p.id == id)) [
  | inl here ↦ rw here (
    λ live. rw (n.same_slug p) (live_in-modify f p.slug id ps n (u.0 (n.was_live p live))),
    modify-UniqueSlugs f id ps n u.1,
  )
  | inr there ↦
      rw there
        (λ live. live_in-modify f p.slug id ps n (u.0 live), modify-UniqueSlugs f id ps n u.1)
]

modify-above :
    (f : PageRow → PageRow) (id : ℕ) (ps : List PageRow)
    → Below (λ p. p.id) id ps
    → modify (λ p. p.id) id f ps ≡ ps
unfolding modify
modify-above f id ps b = go id ps b (omega arith)
  where
    go :
        (n : ℕ) (qs : List PageRow)
        → Below (λ p. p.id) n qs
        → n ≤ id
        → modify (λ p. p.id) id f qs ≡ qs
    go n [] b le = refl
    go n (q ∷ qs) b le = ground (arith, ap (◌∷◌ q) (go q.id qs b.1 (omega arith)))

-- Where the rows of key `id` hold `slug`, other slugs stay free whatever happens to them.
live_in-modify_ne :
    (now id : ℕ) (slug wanted : Text) (ps : List PageRow)
    → All (λ q. q.id ≡ id → q.slug ≡ slug) ps
    → text_eq slug wanted ≡ false
    → live_in wanted ps ≡ none
    → live_in wanted (modify (λ p. p.id) id (restore_row now) ps) ≡ none
unfolding select modify
live_in-modify_ne now id slug wanted [] a ne h = refl
live_in-modify_ne now id slug wanted (p ∷ ps) a ne h =
    let rest = live_in-modify_ne now id slug wanted ps a.1 ne in
    elim (Bool-cases (p.id == id)) [
      | inl here ↦ let e = a.0 ((==_iff p.id id).0 here) in rw (here, e, ne) (rest (ground arith))
      | inr there ↦ rw there (ground (arith, rest))
    ]

pub restore-UniqueSlugs :
    (now id : ℕ) (slug : Text) (n : ℕ) (ps : List PageRow)
    → Below (λ p. p.id) n ps
    → All (λ q. q.id ≡ id → q.slug ≡ slug) ps
    → live_in slug ps ≡ none
    → UniqueSlugs ps
    → UniqueSlugs (modify (λ p. p.id) id (restore_row now) ps)
unfolding modify
restore-UniqueSlugs now id slug n [] b a free u = tt
restore-UniqueSlugs now id slug n (p ∷ ps) b a free u = elim (Bool-cases (p.id == id)) [
  | inl here ↦ rw here (
      let e = (==_iff p.id id).0 here in
      let b' = subst (λ m. Below (λ q. q.id) m ps) e b.1 in
      rw (modify-above (restore_row now) id ps b')
        (λ _. rw (a.0 e) (unfold select in ground arith), u.1))
  | inr there ↦ rw there (
    λ live. live_in-modify_ne now id slug p.slug ps a.1 (differs live) (u.0 live),
    restore-UniqueSlugs now id slug p.id ps b.1 a.1 (unfold select in ground arith) u.1,
  )
]
  where
    differs : is_live_row p ≡ true → text_eq slug p.slug ≡ false
    differs live = unfold select in ground (arith, text_eq_iff slug p.slug, text_eq_refl slug)
