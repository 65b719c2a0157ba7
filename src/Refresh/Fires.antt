-- ===== src/Refresh/Fires.antt =====
-- internal/versions/refreshhealth.go: the fires that a verdict speaks of.
use pages.Common.{
  Bool, Bool-cases, Option, Option-cases, arith, false, if◌then◌else◌, inl, inr, ltb, ltb→ge,
  ltb→lt, none, refl, some, sym, true, ℕ, ◌*◌, ◌+◌, ◌-◌, ◌/◌, ◌<◌, ◌∙◌, ◌≡◌, ◌≤◌, ◌⊎◌,
}
use pages.Common.Rows.{some_inj}
use pages.Cron.Gaps.{Quiet, next_iff, prev-reaches, prev_iff}
use pages.Cron.Schedule.{Calendar, Schedule, matches, next, prev, search_days}
use pages.Refresh.Freshness.{Stamp, day_ms}
use pages.Refresh.Health.{
  covers, early_tolerance, first_missed, from_minute, minute_ms, next_at, no_later, pass_over,
  prev_ago, prev_at, refresh_early,
}

-- Either arm of a conditional.
if-some :
    (b : Bool) (x y : Stamp) (f : ℕ) → (if b then x else y) ≡ some f → (x ≡ some f) ⊎ (y ≡ some f)
if-some true x y f e = inl e
if-some false x y f e = inr e

module _ (cal : Calendar) (s : Schedule) where
  -- A stamp that is a whole minute.
  from_minute-some :
      (o : Option ℕ) (t : ℕ) → from_minute o ≡ some t → (u : ℕ) × (o ≡ some u) × (t ≡ u * minute_ms)
  from_minute-some none t e = cc
  from_minute-some (some u) t e = (u, refl, sym (some_inj e))

  -- The latest fire at least `ago` before a time.
  pub prev_ago-fire :
      (ago t due : ℕ)
      → prev_ago cal s ago t ≡ some due
      → (u : ℕ) × (due ≡ u * minute_ms)
        × (matches cal s u ≡ true)
        × (due + ago ≤ t)
        × Quiet cal s u ((t - ago) / minute_ms + 1)
  unfolding prev_ago prev_at
  prev_ago-fire ago t due e = elim (Bool-cases (ltb t ago)) [
    | inl early ↦ let no : none ≡ some due = rw early at e in cc
    | inr late ↦
        let long = ltb→ge t ago late in
        let found : from_minute (prev cal s ((t - ago) / minute_ms)) ≡ some due = rw late at e in
        let (u, q, at) = from_minute-some (prev cal s ((t - ago) / minute_ms)) due found in
        let (fires, low, reach, quiet) = (prev_iff cal s ((t - ago) / minute_ms) u).0 q in
        (u, at, fires, omega arith, quiet)
  ]

  -- A fire that is at least `ago` old is not after the latest such fire.
  pub prev_ago-reaches :
      (ago t w : ℕ)
      → matches cal s w ≡ true
      → w * minute_ms + ago ≤ t
      → t / day_ms < w / 1440 + search_days
      → (u : ℕ) × (prev_ago cal s ago t ≡ some (u * minute_ms)) × (w ≤ u)
  unfolding prev_ago prev_at
  prev_ago-reaches ago t w fires old near =
      let late : ltb t ago ≡ false = ground arith in
      let (u, q, low, high) =
        prev-reaches cal s ((t - ago) / minute_ms) w fires (omega arith) (omega arith) in
      (u, rw (late, q, prev_ago) refl, low)

  -- Activity may be early by an hour at most.
  pub early_tolerance-le : (fire : ℕ) → early_tolerance cal s fire ≤ refresh_early
  unfolding early_tolerance
  early_tolerance-le fire = elim (Option-cases (prev_ago cal s minute_ms fire)) [
    | inl e ↦ rw (e, early_tolerance) (omega arith)
    | inr (before, e) ↦ elim (Bool-cases (ltb ((fire - before) / 2) refresh_early)) [
      | inl k ↦
          let l = ltb→lt ((fire - before) / 2) refresh_early k in
          rw (e, k, early_tolerance) (omega arith)
      | inr k ↦ rw (e, k, early_tolerance) (omega arith)
    ]
  ]

  -- A fire after a time.
  next_at-fire :
      (t f : ℕ)
      → next_at cal s t ≡ some f
      → (w : ℕ) × (f ≡ w * minute_ms) × (matches cal s w ≡ true) × (t < f)
  unfolding next_at
  next_at-fire t f e =
      let (w, q, at) = from_minute-some (next cal s (t / minute_ms)) f e in
      let (fires, later, reach, quiet) = (next_iff cal s (t / minute_ms) w).0 q in
      (w, at, fires, omega arith)

  pub covers-false : (a fire : ℕ) → covers cal s (some a) fire ≡ false → a < fire
  unfolding covers
  covers-false a fire e = elim (Bool-cases (ltb (a + early_tolerance cal s fire) fire)) [
    | inl k ↦ let l = ltb→lt (a + early_tolerance cal s fire) fire k in omega arith
    | inr k ↦ let no : true ≡ false = rw k at e in cc
  ]

  pub covers-true : (a fire : ℕ) → covers cal s (some a) fire ≡ true → fire ≤ a + refresh_early
  unfolding covers
  covers-true a fire e =
      let near = early_tolerance-le fire in
      elim (Bool-cases (ltb (a + early_tolerance cal s fire) fire)) [
        | inl k ↦ let no : false ≡ true = rw k at e in cc
        | inr k ↦ let l = ltb→ge (a + early_tolerance cal s fire) fire k in omega arith
      ]

  -- A fire, after `a` and no later than `due`.
  abbrev pub MissedFire : ℕ → ℕ → ℕ → Type 0
  MissedFire a due t =
      (w : ℕ) × (t ≡ w * minute_ms) × (matches cal s w ≡ true) × (a < t) × (t ≤ due)

  pass_over-fire :
      (a f : ℕ) (o : Stamp)
      → next_at cal s a ≡ o
      → pass_over cal s a o ≡ some f
      → (w : ℕ) × (f ≡ w * minute_ms) × (matches cal s w ≡ true) × (a < f)
  unfolding pass_over
  pass_over-fire a f none n e = cc
  pass_over-fire a f (some g) n e =
      let (v, at, fires, later) = next_at-fire a g n in
      elim (if-some (covers cal s (some a) g) (next_at cal s g) (some g) f e) [
        | inl q ↦ let (w, at2, fires2, later2) = next_at-fire g f q in (w, at2, fires2, omega arith)
        | inr q ↦ let same : g ≡ f = some_inj q in (v, sym same ∙ at, fires, omega arith)
      ]

  -- The time that an overdue page is overdue since.
  pub no_later-fire :
      (a due : ℕ) (o : Stamp)
      → MissedFire a due due
      → ((f : ℕ) → o ≡ some f → (w : ℕ) × (f ≡ w * minute_ms) × (matches cal s w ≡ true) × (a < f))
      → MissedFire a due (no_later o due)
  no_later-fire a due none last found = last
  no_later-fire a due (some f) last found = elim (Bool-cases (ltb due f)) [
    | inl k ↦ rw k last
    | inr k ↦
        let over = ltb→ge due f k in
        let (w, at, fires, later) = found f refl in rw k (w, at, fires, later, over)
  ]

  pub first_missed-fire :
      (a due : ℕ) → MissedFire a due due → MissedFire a due (first_missed cal s a due)
  unfolding first_missed
  first_missed-fire a due last =
      no_later-fire a due (pass_over cal s a (next_at cal s a)) last
        (λ f e. pass_over-fire a f (next_at cal s a) refl e)

  pub first_next-fire :
      (a due : ℕ) → MissedFire a due due → MissedFire a due (no_later (next_at cal s a) due)
  first_next-fire a due last =
      no_later-fire a due (next_at cal s a) last (λ f e. next_at-fire a f e)
