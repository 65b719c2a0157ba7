-- ===== src/Cron/Gaps.antt =====
-- internal/cron/cron.go: `Prev`, `Next` and `MaxGap`, in terms of the fires of the schedule.
use pages.Common.{
  Bool-cases, Option, Option-cases, ap, arith, false, inl, inr, ltb, ltb→ge, ltb→lt, lt→ltb, max,
  none, refl, some, suc, sym, true, zero, ℕ, ◌*◌, ◌+◌, ◌-◌, ◌/◌, ◌<◌, ◌↔◌, ◌∙◌, ◌≡◌, ◌≤◌,
}
use pages.Cron.Fires.{prev-Latest}
use pages.Cron.Later.{next-Earliest}
use pages.Cron.Schedule.{
  Calendar, Schedule, matches, max_gap, next, prev, prev_before, search_days, week, widest_gap,
}
use pages.Cron.Search.{Earliest, Earliest-unique, Latest, Latest-unique}
use mathlib.Core.Path.{subst}

module _ (cal : Calendar) (s : Schedule) where
  -- Nothing fires after `t` and before `u`.
  abbrev pub Quiet : ℕ → ℕ → Type 0
  Quiet t u = (x : ℕ) → t < x → x < u → matches cal s x ≡ false

  -- `prev` returns a minute exactly when it is a fire, at or before the time given and on one of the
  -- 2929 days that end with that time's day, and nothing fires after it up to that time.
  pub prev_iff :
      (t u : ℕ)
      → (prev cal s t ≡ some u) ↔ (
          (matches cal s u ≡ true)
          × (u ≤ t)
          × (t / 1440 < u / 1440 + search_days)
          × Quiet u (t + 1))
  prev_iff t u = (
    λ e.
        let l =
          subst (Latest (matches cal s) ((t / 1440 + 1 - search_days) * 1440) (t + 1)) e
            (prev-Latest cal s t) in
        (l.2, omega (arith, l.1), omega (arith, l.0), l.3),
    λ h.
        Latest-unique (matches cal s) ((t / 1440 + 1 - search_days) * 1440) (t + 1) u (prev cal s t)
          (omega (arith, h.2)) (omega (arith, h.1)) h.0 h.3 (prev-Latest cal s t),
  )

  -- `next` returns a minute exactly when it is a fire, after the time given and on one of the 2929
  -- days from the day of the minute after it, and nothing fires between.
  pub next_iff :
      (t u : ℕ)
      → (next cal s t ≡ some u) ↔ (
          (matches cal s u ≡ true)
          × (t < u)
          × (u / 1440 < (t + 1) / 1440 + search_days)
          × Quiet t u)
  next_iff t u = (
    λ e.
        let l =
          subst (Earliest (matches cal s) (t + 1) (((t + 1) / 1440 + search_days) * 1440)) e
            (next-Earliest cal s t) in
        (l.2, omega (arith, l.0), omega (arith, l.1), λ x a b. l.3 x (omega arith) b),
    λ h.
        Earliest-unique (matches cal s) (t + 1) (((t + 1) / 1440 + search_days) * 1440) u
          (next cal s t) (omega (arith, h.1)) (omega (arith, h.2)) h.0
          (λ x a b. h.3 x (omega arith) b) (next-Earliest cal s t),
  )

  -- A fire is a lower bound of what `prev` finds soon after it.
  pub prev-reaches :
      (t w : ℕ)
      → matches cal s w ≡ true
      → w ≤ t
      → t / 1440 < w / 1440 + search_days
      → (v : ℕ) × (prev cal s t ≡ some v) × (w ≤ v) × (v ≤ t)
  prev-reaches t w e a b = go (prev cal s t) refl (prev-Latest cal s t)
    where
      low : (t / 1440 + 1 - search_days) * 1440 ≤ w
      low = omega arith

      go :
          (o : Option ℕ)
          → prev cal s t ≡ o
          → Latest (matches cal s) ((t / 1440 + 1 - search_days) * 1440) (t + 1) o
          → (v : ℕ) × (prev cal s t ≡ some v) × (w ≤ v) × (v ≤ t)
      go none q f = let no : true ≡ false = sym e ∙ f w low (omega arith) in cc
      go (some v) q f = elim (Bool-cases (ltb v w)) [
        | inl l ↦ let no : true ≡ false = sym e ∙ f.3 w (ltb→lt v w l) (omega arith) in cc
        | inr l ↦ (v, q, ground arith, omega (arith, f.1))
      ]

  -- The loop of `MaxGap` never lowers the widest gap.
  widest_gap-le : (n end later widest : ℕ) → widest ≤ widest_gap cal s n end later widest
  unfolding widest_gap
  widest_gap-le zero end later widest = omega arith
  widest_gap-le (suc n) end later widest = elim (Option-cases (prev_before cal s later)) [
    | inl q ↦ rw (q, widest_gap) (omega arith)
    | inr (v, q) ↦
        let more = widest_gap-le n end v (max widest (later - v)) in
        elim (Bool-cases (ltb end (v + week))) [
          | inl e ↦ rw (q, e, widest_gap) (omega (arith, more))
          | inr e ↦ rw (q, e, widest_gap) (omega arith)
        ]
  ]

  prev_before-pred : (t : ℕ) → 0 < t → prev_before cal s t ≡ prev cal s (t - 1)
  unfolding prev_before
  prev_before-pred zero h = absurd (omega arith)
  prev_before-pred (suc t) h = let same : suc t - 1 ≡ t = omega arith in rw same refl

  -- The loop reaches every gap whose later fire is in the week: its 10081 rounds are enough.
  module _ (end u w : ℕ) (fires : matches cal s w ≡ true) (recent : end < w + week)
      (gap : prev_before cal s w ≡ some u) where
    widest_gap-reaches :
        (n later widest : ℕ)
        → n ≤ 10081
        → w ≤ later
        → later + 10081 ≤ end + n
        → w - u ≤ widest_gap cal s n end later widest
    unfolding widest_gap
    widest_gap-reaches zero later widest m a b = absurd (omega arith)
    widest_gap-reaches (suc n) later widest m a b = elim (Bool-cases (ltb w later)) [
      | inl e ↦
          let before = ltb→lt w later e in
          let (v, q, c, d) = prev-reaches (later - 1) w fires (omega arith) (omega arith) in
          let more =
            widest_gap-reaches n v (max widest (later - v)) (omega arith) c (omega arith) in
          let on = lt→ltb end (v + week) (omega arith) in
          rw (prev_before-pred later (omega arith), q, on, widest_gap) more
      | inr e ↦
          let over = ltb→ge w later e in
          let same : w ≡ later = omega arith in
          let q = ap (prev_before cal s) (sym same) ∙ gap in
          let more = widest_gap-le n end u (max widest (later - u)) in
          elim (Bool-cases (ltb end (u + week))) [
            | inl k ↦ rw (q, k, widest_gap) (omega (arith, more))
            | inr k ↦ rw (q, k, widest_gap) (omega arith)
          ]
    ]

  -- The time between two consecutive fires is at most `max_gap` when the later one is in the week
  -- that ends at `end`, provided that the earlier one is within the reach of a search.
  pub max_gap-bound :
      (end u w : ℕ)
      → matches cal s u ≡ true
      → matches cal s w ≡ true
      → u < w
      → w ≤ end
      → end < w + week
      → w / 1440 < u / 1440 + search_days
      → Quiet u w
      → w - u ≤ max_gap cal s end
  unfolding max_gap
  max_gap-bound end u w f g a b c d q =
      let (v, e, h, k) = prev-reaches end w g b (omega arith) in
      let gap : prev_before cal s w ≡ some u =
        prev_before-pred w (omega arith)
        ∙ (prev_iff (w - 1) u).1 (f, omega arith, omega arith, λ x i j. q x i (omega arith)) in
      let r = widest_gap-reaches end u w g c gap 10081 v 0 (omega arith) h (omega arith) in
      rw (e, max_gap) r
