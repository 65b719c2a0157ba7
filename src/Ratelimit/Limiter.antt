-- ===== src/Ratelimit/Limiter.antt =====
-- internal/ratelimit/ratelimit.go: the limiter's windows and their operations. The mutex makes each
-- operation one step. Times are milliseconds; the budget and the window are whole numbers here.
use pages.Common.{
  Bool, List, Option, Text, [], if◌then◌else◌, leb, ltb, none, not, some, text_eq, ℕ, ◌+◌, ◌-◌, ◌/◌,
  ◌∷◌,
}

-- `window`
pub record Window : Type 0 where
  pub hits : ℕ
  pub reset_at : ℕ

-- `Options`, as far as the counting reads them.
pub record Options : Type 0 where
  pub limit : ℕ
  pub window_ms : ℕ

-- `Limiter.windows`: at most one entry of a key counts, the first.
abbrev pub Windows : Type 0
Windows = List (Text × Window)

unfoldable pub lookup : Text → Windows → Option Window
unfolding text_eq
lookup key [] = none
lookup key ((k, w) ∷ ws) = if text_eq k key then some w else lookup key ws

-- `delete(l.windows, key)`
unfoldable pub reset_key : Text → Windows → Windows
unfolding text_eq
reset_key key [] = []
reset_key key ((k, w) ∷ ws) =
    let rest = reset_key key ws in if text_eq k key then rest else (k, w) ∷ rest

-- `l.windows[key] = w`
unfoldable pub put : Text → Window → Windows → Windows
unfolding reset_key
put key w ws = (key, w) ∷ reset_key key ws

-- `Sweep`, at time `at`.
unfoldable pub sweep : ℕ → Windows → Windows
sweep at [] = []
sweep at ((k, w) ∷ ws) = let rest = sweep at ws in if leb w.reset_at at then rest else (k, w) ∷ rest

-- What `Hit` answers, and the numbers of the headers that it sets.
pub record Answer : Type 0 where
  pub allowed : Bool
  pub remaining : ℕ
  pub reset : ℕ
  pub retry_after : Option ℕ

-- The window that a hit counts in: the running one, or a new one.
unfoldable pub counted : Options → ℕ → Option Window → Window
counted opts at none = record { hits = 1; reset_at = at + opts.window_ms }
counted opts at (some w) =
    if leb w.reset_at at
    then record { hits = 1; reset_at = at + opts.window_ms }
    else record { hits = w.hits + 1; reset_at = w.reset_at }

-- `Ceil(ms / 1000)`
abbrev pub seconds : ℕ → ℕ
seconds ms = (ms + 999) / 1000

unfoldable pub answer : Options → ℕ → Window → Answer
answer opts later w =
    let over = ltb opts.limit w.hits in
    record {
      allowed = not over;
      remaining = opts.limit - w.hits;
      reset = seconds (w.reset_at - later);
      retry_after = if over then some (seconds (w.reset_at - later)) else none;
    }

-- `Hit`, once the key is known: the clock is read at `at`, and again at `later` for the headers.
unfoldable pub hit : Options → Text → ℕ → ℕ → Windows → Answer × Windows
unfolding lookup put counted answer
hit opts key at later ws =
    let w = counted opts at (lookup key ws) in (answer opts later w, put key w ws)
