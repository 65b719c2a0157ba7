-- ===== src/Ratelimit/Windows.antt =====
-- The windows of different keys do not meet, and a sweep is not observable.
use pages.Common.{
  Bool-cases, Option, Text, [], ap, arith, false, if◌then◌else◌, inl, inr, leb, none, refl, some,
  text_eq, text_eq_iff, ℕ, ◌∙◌, ◌∷◌, ◌≡◌, ◌≢◌, ◌≤◌,
}
use pages.Ratelimit.Limiter.{
  Options, Window, Windows, answer, counted, hit, lookup, put, reset_key, sweep,
}
use mathlib.Core.Path.{subst}

pub lookup-reset_key_ne :
    (key other_key : Text) (ws : Windows)
    → text_eq key other_key ≡ false
    → lookup other_key (reset_key key ws) ≡ lookup other_key ws
unfolding lookup reset_key
lookup-reset_key_ne key other_key [] ne = refl
lookup-reset_key_ne key other_key ((k, w) ∷ ws) ne =
    let rest = lookup-reset_key_ne key other_key ws ne in
    elim (Bool-cases (text_eq k key)) [
      | inl same ↦ let e = (text_eq_iff k key).0 same in rw (same, e, ne) rest
      | inr differs ↦ rw differs (ground (arith, rest))
    ]

-- A hit counts for its own key: the windows of the others stay.
pub hit-other_key :
    (opts : Options) (key other_key : Text) (at later : ℕ) (ws : Windows)
    → key ≢ other_key
    → lookup other_key (hit opts key at later ws).1 ≡ lookup other_key ws
unfolding hit lookup put
hit-other_key opts key other_key at later ws ne =
    let differs : text_eq key other_key ≡ false = elim (Bool-cases (text_eq key other_key)) [
      | inl same ↦ absurd (ne ((text_eq_iff key other_key).0 same))
      | inr d ↦ d
    ] in
    rw differs (lookup-reset_key_ne key other_key ws differs)

-- One entry for each key, as in a Go map.
abbrev pub OneEach : Windows → Type 0
OneEach [] = Unit {0}
OneEach ((k, w) ∷ ws) = (lookup k ws ≡ none) × OneEach ws

lookup-sweep-none :
    (at : ℕ) (key : Text) (ws : Windows) → lookup key ws ≡ none → lookup key (sweep at ws) ≡ none
unfolding lookup sweep
lookup-sweep-none at key [] h = refl
lookup-sweep-none at key ((k, w) ∷ ws) h = ground (arith, lookup-sweep-none at key ws)

-- What a sweep leaves of a key's window.
abbrev pub unexpired : ℕ → Option Window → Option Window
unexpired at none = none
unexpired at (some w) = if leb w.reset_at at then none else some w

pub lookup-sweep :
    (at : ℕ) (key : Text) (ws : Windows)
    → OneEach ws
    → lookup key (sweep at ws) ≡ unexpired at (lookup key ws)
unfolding lookup sweep
lookup-sweep at key [] one = refl
lookup-sweep at key ((k, w) ∷ ws) one =
    let rest = lookup-sweep at key ws one.1 in ground (arith, rest, text_eq_iff k key, gone)
  where
    gone : k ≡ key → lookup key (sweep at ws) ≡ none
    gone e = subst (λ j. lookup j (sweep at ws) ≡ none) e (lookup-sweep-none at k ws one.0)

-- A sweep is not observable: whenever it ran before, a hit answers the same. Each key has one
-- entry.
pub hit-sweep :
    (opts : Options) (key : Text) (swept at later : ℕ) (ws : Windows)
    → OneEach ws
    → swept ≤ at
    → (hit opts key at later (sweep swept ws)).0 ≡ (hit opts key at later ws).0
unfolding hit
hit-sweep opts key swept at later ws one early =
    ap (λ w. answer opts later w)
      (ap (λ o. counted opts at o) (lookup-sweep swept key ws one) ∙ forgets (lookup key ws))
  where
    forgets : (o : Option Window) → counted opts at (unexpired swept o) ≡ counted opts at o
    forgets none = refl
    forgets (some w) = unfold counted in ground arith
