-- ===== src/Versions/Effects/Slugs.antt =====
-- The slugs that `NormalizeSlug` answers.
use pages.Common.{
  Bool, Bool-cases, Text, [], arith, false, inl, inr, map, refl, sym, true, ℕ, ◌&&◌, ◌↔◌, ◌∙◌, ◌∷◌,
  ◌≡◌,
}
use pages.Jsstr.{trim}
use pages.Versions.Args.{
  bad_slug, contains, err, is_alnum, is_separator, normalize_slug, ok, slug_matches, str,
}
use pages.Versions.Spec.Invert.{ok_inj}
use mathlib.Core.Path.{subst}

-- What may follow a letter or digit of a slug.
pub data SlugTail : Text → Type 0 where
  stops : SlugTail []
  goes_on : {c : ℕ} {cs : Text} → is_alnum c ≡ true → SlugTail cs → SlugTail (c ∷ cs)
  separates :
      {c d : ℕ} {cs : Text}
      → is_separator c ≡ true
      → is_alnum d ≡ true
      → SlugTail cs
      → SlugTail (c ∷ d ∷ cs)

-- Runs of letters and digits, one `-`, `_` or `/` between two runs: the pattern `slugRE`.
abbrev pub IsSlug : Text → Type 0
IsSlug [] = ⊥
IsSlug (c ∷ cs) = (is_alnum c ≡ true) × SlugTail cs

separator_apart : (c : ℕ) → is_separator c ≡ true → is_alnum c ≡ false
separator_apart c h = ground arith

on_alnum :
    (inside : Bool) (c : ℕ) (cs : Text)
    → is_alnum c ≡ true
    → slug_matches inside (c ∷ cs) ≡ slug_matches true cs
unfolding slug_matches
on_alnum inside c cs h = rw (slug_matches, h) refl

on_separator :
    (c : ℕ) (cs : Text) → is_separator c ≡ true → slug_matches true (c ∷ cs) ≡ slug_matches false cs
unfolding slug_matches
on_separator c cs h = let apart = separator_apart c h in rw (slug_matches, apart, h) refl

on_neither :
    (inside : Bool) (c : ℕ) (cs : Text)
    → is_alnum c ≡ false
    → inside && is_separator c ≡ false
    → slug_matches inside (c ∷ cs) ≡ false
unfolding slug_matches
on_neither inside c cs h g = rw (slug_matches, h, g) refl

pub not_both : {b : Bool} → b ≡ true → b ≡ false → ⊥
not_both h g = cc

tail_sound : (cs : Text) → slug_matches true cs ≡ true → SlugTail cs
unfolding slug_matches
tail_sound [] h = stops
tail_sound (c ∷ []) h = elim (Bool-cases (is_alnum c)) [
  | inl alnum ↦ goes_on alnum stops
  | inr other_char ↦ absurd (ground (arith, other_char))
]
tail_sound (c ∷ d ∷ cs) h = elim (Bool-cases (is_alnum c)) [
  | inl alnum ↦ goes_on alnum (tail_sound (d ∷ cs) (sym (on_alnum true c (d ∷ cs) alnum) ∙ h))
  | inr other_char ↦ elim (Bool-cases (is_separator c)) [
    | inr neither ↦ absurd (not_both h (on_neither true c (d ∷ cs) other_char neither))
    | inl sep ↦
        let rest = sym (on_separator c (d ∷ cs) sep) ∙ h in
        elim (Bool-cases (is_alnum d)) [
          | inl alnum ↦ separates sep alnum (tail_sound cs (sym (on_alnum false d cs alnum) ∙ rest))
          | inr wrong ↦ absurd (not_both rest (on_neither false d cs wrong refl))
        ]
  ]
]

tail_complete : (cs : Text) → SlugTail cs → slug_matches true cs ≡ true
unfolding slug_matches
tail_complete _ stops = refl
tail_complete (c ∷ cs) (goes_on alnum more) = on_alnum true c cs alnum ∙ tail_complete cs more
tail_complete (c ∷ d ∷ cs) (separates sep alnum more) =
    on_separator c (d ∷ cs) sep ∙ on_alnum false d cs alnum ∙ tail_complete cs more

slug_matches_iff : (s : Text) → (slug_matches false s ≡ true) ↔ IsSlug s
unfolding slug_matches
slug_matches_iff [] = ((λ e. cc), (λ h. absurd h))
slug_matches_iff (c ∷ cs) = elim (Bool-cases (is_alnum c)) [
  | inl alnum ↦ (
    (λ h. (alnum, tail_sound cs (sym (on_alnum false c cs alnum) ∙ h))),
    (λ (_, more). on_alnum false c cs alnum ∙ tail_complete cs more),
  )
  | inr wrong ↦ (
    (λ h. absurd (not_both h (on_neither false c cs wrong refl))),
    (λ (alnum, _). absurd (not_both alnum wrong)),
  )
]

no_ok : (x : Text) → err bad_slug ≡ ok x → ⊥
no_ok x h = cc

-- A text is accepted as a slug exactly where, trimmed and in lower case, it is runs of `a`-`z` and
-- `0`-`9` with one separator between two runs, and has no U+0130; the slug is that text.
pub normalize_slug_iff :
    (to_lower : ℕ → ℕ) (given slug : Text)
    → (normalize_slug to_lower (str given) ≡ ok slug)
      ↔ ((contains 0x130 (trim given) ≡ false) × (map to_lower (trim given) ≡ slug) × IsSlug slug)
unfolding normalize_slug
normalize_slug_iff to_lower given slug = (sound, complete)
  where
    sound :
        normalize_slug to_lower (str given) ≡ ok slug
        → (contains 0x130 (trim given) ≡ false) × (map to_lower (trim given) ≡ slug) × IsSlug slug
    sound h = elim (Bool-cases (contains 0x130 (trim given))) [
      | inl dotted ↦ absurd (no_ok slug (rw dotted at h))
      | inr plain ↦ elim (Bool-cases (slug_matches false (map to_lower (trim given)))) [
        | inr bad ↦ absurd (no_ok slug (rw (plain, bad) at h))
        | inl good ↦
            let e : map to_lower (trim given) ≡ slug = ok_inj (rw (plain, good) at h) in
            (plain, e, subst (λ t. IsSlug t) e ((slug_matches_iff _).0 good))
      ]
    ]

    complete :
        (contains 0x130 (trim given) ≡ false) × (map to_lower (trim given) ≡ slug) × IsSlug slug
        → normalize_slug to_lower (str given) ≡ ok slug
    complete (plain, e, shape) =
        let good = (slug_matches_iff slug).1 shape in rw (normalize_slug, plain, e, good) refl
