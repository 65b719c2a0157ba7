-- ===== src/Versions/Effects/Access.antt =====
-- What a request names: its page, and the expectation of `expected_version`.
use pages.Common.{
  Bool, Bool-cases, List, Option, Text, [], ap, arith, false, inl, inr, map, none, refl, some, sym,
  text_eq, text_eq_iff, true, ℕ, ◌&&◌, ◌==◌, ◌||◌, ◌↔◌, ◌∷◌, ◌≡◌, ◌≢◌, ◌⊎◌,
}
use pages.Common.Rows.{some_inj}
use pages.Common.Table.{select}
use pages.Jsstr.{trim}
use pages.Versions.Args.{
  Error, Value, bool, contains, decimal, int, is_nullish, js_string, normalize_slug, null, ok,
  omitted, other, page_not_found, require, same_db_id, stale_version, str,
}
use pages.Versions.Effects.Slugs.{IsSlug, normalize_slug_iff, not_both}
use pages.Versions.Guards.{assert_expected_version, lock_page}
use pages.Versions.Prepare.{Platform}
use pages.Versions.Spec.Invert.{>>=-eq-ok, found_or-eq-ok}
use pages.Versions.Store.{PageRow, Store, is_live_row, live_page}
use mathlib.Core.Path.{subst}

-- A row that is not deleted and has the slug.
abbrev pub IsUnder : Text → PageRow → Type 0
IsUnder slug p = (p.deleted_at ≡ none) × (p.slug ≡ slug)

-- The page is the newest such row.
abbrev pub FirstUnder : Text → PageRow → List PageRow → Type 0
FirstUnder slug page [] = ⊥
FirstUnder slug page (p ∷ ps) =
    (IsUnder slug p × (p ≡ page)) ⊎ ((IsUnder slug p → ⊥) × FirstUnder slug page ps)

-- The page of the slug as it is given: trimmed and in lower case.
pub record NamesPage (env : Platform) (given : Text) (s : Store) (page : PageRow) : Type 0 where
  pub no_dotted : contains 0x130 (trim given) ≡ false
  pub shape : IsSlug (map env.to_lower (trim given))
  pub on_site : FirstUnder (map env.to_lower (trim given)) page s.pages

abbrev pub IsGiven : Value → Type 0
IsGiven omitted = ⊥
IsGiven null = ⊥
IsGiven _ = Unit {0}

-- No expectation is given, or the number of the live version is.
abbrev pub Expects : Value → PageRow → Type 0
Expects expected page =
    (expected ≡ omitted)
    ⊎ (expected ≡ null)
    ⊎ (IsGiven expected
        × (page.published_version_id ≢ 0)
        × (js_string expected ≡ decimal page.published_version_id))

is_live_row_iff : (p : PageRow) → (is_live_row p ≡ true) ↔ (p.deleted_at ≡ none)
is_live_row_iff p = by_time p.deleted_at
  where
    by_time :
        (o : Option ℕ)
        → ((elim o as (λ _. Bool) [ none ↦ true | some _ ↦ false ]) ≡ true) ↔ (o ≡ none)
    by_time none = (λ _. refl, λ _. refl)
    by_time (some t) = (λ e. cc, λ e. cc)

is_live_slug_iff :
    (slug : Text) (p : PageRow) → (is_live_row p && text_eq p.slug slug ≡ true) ↔ IsUnder slug p
is_live_slug_iff slug p = (sound, complete)
  where
    sound : (is_live_row p && text_eq p.slug slug ≡ true) → IsUnder slug p
    sound h =
        let live : is_live_row p ≡ true = ground arith in
        let same : text_eq p.slug slug ≡ true = ground arith in
        ((is_live_row_iff p).0 live, (text_eq_iff p.slug slug).0 same)

    complete : IsUnder slug p → is_live_row p && text_eq p.slug slug ≡ true
    complete (live, same) =
        let l = (is_live_row_iff p).1 live in
        let t = (text_eq_iff p.slug slug).1 same in ground arith

select_iff :
    (slug : Text) (page : PageRow) (ps : List PageRow)
    → (select (λ p. is_live_row p && text_eq p.slug slug) ps ≡ some page) ↔ FirstUnder slug page ps
unfolding select
select_iff slug page [] = (λ e. cc, λ h. absurd h)
select_iff slug page (p ∷ ps) = elim (Bool-cases (is_live_row p && text_eq p.slug slug)) [
  | inl under ↦ rw under (
    (λ e. inl ((is_live_slug_iff slug p).0 under, some_inj e)),
    (λ h. elim h [
      | inl (_, e) ↦ ap some e
      | inr (not_under, _) ↦ absurd (not_under ((is_live_slug_iff slug p).0 under))
    ]),
  )
  | inr apart ↦ rw apart (
    (λ e.
        inr ((λ u. not_both ((is_live_slug_iff slug p).1 u) apart), (select_iff slug page ps).0 e)),
    (λ h. elim h [
      | inl (u, _) ↦ absurd (not_both ((is_live_slug_iff slug p).1 u) apart)
      | inr (_, rest) ↦ (select_iff slug page ps).1 rest
    ]),
  )
]

-- `LockPage` finds the page that the request names.
pub lock_page_iff :
    (env : Platform) (given : Text) (s : Store) (page : PageRow)
    → (lock_page env.to_lower (str given) s ≡ ok page) ↔ NamesPage env given s page
unfolding lock_page live_page
lock_page_iff env given s page = (sound, complete)
  where
    sound : lock_page env.to_lower (str given) s ≡ ok page → NamesPage env given s page
    sound h =
        let (wanted, n, f) = >>=-eq-ok (normalize_slug env.to_lower (str given)) _ h in
        let (plain, same, good) = (normalize_slug_iff env.to_lower given wanted).0 n in
        let found = found_or-eq-ok (live_page wanted s) page_not_found f in
        record {
          no_dotted = plain;
          shape = subst IsSlug (sym same) good;
          on_site =
              subst (λ t. FirstUnder t page s.pages) (sym same)
                ((select_iff wanted page s.pages).0 found);
        }

    complete : NamesPage env given s page → lock_page env.to_lower (str given) s ≡ ok page
    complete h =
        let wanted = map env.to_lower (trim given) in
        let n = (normalize_slug_iff env.to_lower given wanted).1 (h.no_dotted, refl, h.shape) in
        let found = (select_iff wanted page s.pages).1 h.on_site in rw (n, found) refl

require-true : (test : Bool) (e : Error) → require test e ≡ ok tt → test ≡ true
require-true true e h = refl
require-true false e h = cc

given_iff :
    (page : PageRow) (v : Value)
    → IsGiven v
    → is_nullish v ≡ false
    → (assert_expected_version page v ≡ ok tt) ↔ Expects v page
unfolding assert_expected_version same_db_id
given_iff page v given plain = (sound, complete)
  where
    sound : assert_expected_version page v ≡ ok tt → Expects v page
    sound h =
        let test =
          require-true (is_nullish v || same_db_id v page.published_version_id) stale_version h in
        let same : text_eq (js_string v) (decimal page.published_version_id) ≡ true =
          ground arith in
        let live : page.published_version_id ≢ 0 = λ z. ground arith in
        inr (inr (given, live, (text_eq_iff _ _).0 same))

    complete : Expects v page → assert_expected_version page v ≡ ok tt
    complete (inl e) = absurd (subst IsGiven e given)
    complete (inr (inl e)) = absurd (subst IsGiven e given)
    complete (inr (inr (_, live, same))) =
        let text = (text_eq_iff (js_string v) (decimal page.published_version_id)).1 same in
        let there : (page.published_version_id == 0) ≡ false = ground arith in
        rw (plain, there, text) refl

-- `AssertExpectedVersion` accepts what expects the live version.
pub assert_expected_version_iff :
    (page : PageRow) (expected : Value)
    → (assert_expected_version page expected ≡ ok tt) ↔ Expects expected page
unfolding assert_expected_version same_db_id is_nullish
assert_expected_version_iff page omitted = (λ _. inl refl, λ _. refl)
assert_expected_version_iff page null = (λ _. inr (inl refl), λ _. refl)
assert_expected_version_iff page (bool b) = given_iff page (bool b) tt refl
assert_expected_version_iff page (str t) = given_iff page (str t) tt refl
assert_expected_version_iff page (int n) = given_iff page (int n) tt refl
assert_expected_version_iff page (other t) = given_iff page (other t) tt refl
