-- ===== src/Ratelimit/Budget.antt =====
-- The budget of a window.
use pages.Common.{
  All, Bool, List, Text, [], ap, arith, ltb, none, not, refl, some, text_eq_refl, ℕ, ◌+◌, ◌<◌, ◌∙◌,
  ◌∷◌, ◌≡◌,
}
use pages.Ratelimit.Limiter.{Options, Window, Windows, answer, counted, hit, lookup, put}

-- What successive hits of a key answer.
unfoldable pub answers : Options → Text → List ℕ → Windows → List Bool
unfolding hit
answers opts key [] ws = []
answers opts key (at ∷ ats) ws =
    let (a, after) = hit opts key at at ws in a.allowed ∷ answers opts key ats after

-- The first of `n` hits are allowed while the budget lasts, `used` being used up.
abbrev pub within_budget : ℕ → ℕ → List ℕ → List Bool
within_budget limit used [] = []
within_budget limit used (at ∷ ats) = ltb used limit ∷ within_budget limit (used + 1) ats

lookup-put : (key : Text) (w : Window) (ws : Windows) → lookup key (put key w ws) ≡ some w
unfolding lookup put
lookup-put key w ws = rw (text_eq_refl key) refl

runs :
    (opts : Options) (at used reset : ℕ)
    → at < reset
    → counted opts at (some (record { hits = used; reset_at = reset }))
      ≡ record { hits = used + 1; reset_at = reset }
unfolding counted
runs opts at used reset lt = ground arith

opens :
    (opts : Options) (at : ℕ)
    → counted opts at none ≡ record { hits = 1; reset_at = at + opts.window_ms }
unfolding counted
opens opts at = refl

one_more :
    (limit used : ℕ) (xs ys : List Bool)
    → xs ≡ ys
    → (not (ltb limit (used + 1)) ∷ xs) ≡ (ltb used limit ∷ ys)
one_more limit used xs ys e = ground (arith, e)

answers_running :
    (opts : Options) (key : Text) (used reset : ℕ) (ats : List ℕ) (ws : Windows)
    → lookup key ws ≡ some (record { hits = used; reset_at = reset })
    → All (λ t. t < reset) ats
    → answers opts key ats ws ≡ within_budget opts.limit used ats
unfolding answers hit counted answer
answers_running opts key used reset [] ws h before = refl
answers_running opts key used reset (at ∷ ats) ws h before =
    let w : Window = record { hits = used + 1; reset_at = reset } in
    let e : counted opts at (lookup key ws) ≡ w =
      ap (λ o. counted opts at o) h ∙ runs opts at used reset before.0 in
    rw e (
      one_more opts.limit used _ _ (
        answers_running opts key (used + 1) reset ats (put key w ws) (lookup-put key w ws)
          before.1))

-- In the window that a first hit opens, exactly the first `limit` hits are allowed, whatever times
-- they come at.
pub answers_fresh :
    (opts : Options) (key : Text) (at : ℕ) (ats : List ℕ) (ws : Windows)
    → lookup key ws ≡ none
    → All (λ t. t < at + opts.window_ms) ats
    → answers opts key (at ∷ ats) ws ≡ within_budget opts.limit 0 (at ∷ ats)
unfolding answers hit counted answer
answers_fresh opts key at ats ws free before =
    let w : Window = record { hits = 1; reset_at = at + opts.window_ms } in
    let e : counted opts at (lookup key ws) ≡ w =
      ap (λ o. counted opts at o) free ∙ opens opts at in
    rw e (
      one_more opts.limit 0 _ _
        (answers_running opts key 1 w.reset_at ats (put key w ws) (lookup-put key w ws) before))
