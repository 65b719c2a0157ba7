-- ===== src/Cron/Later.antt =====
-- internal/cron/cron.go: what the loops of `Next` find.
use pages.Common.{
  Bool, Bool-cases, Option, arith, false, inl, inr, leb, none, refl, suc, sym, true, zero, ℕ, ◌%◌,
  ◌&&◌, ◌*◌, ◌+◌, ◌-◌, ◌/◌, ◌<◌, ◌≡◌, ◌≤◌,
}
use pages.Cron.Fires.{
  and_false, and_true, if-or_else, if-today, matches-off, matches-on, minute_matches-hour,
  minute_matches-skipped, today,
}
use pages.Cron.Schedule.{
  Calendar, Schedule, day_matches, first_day, first_hour, first_in_hour, first_minute, has_bit,
  matches, minute_matches, next, or_else, search_days,
}
use pages.Cron.Search.{
  Earliest, Earliest-at, Earliest-narrow, Earliest-one, Earliest-or_else, Earliest-shifted,
}

module _ (s : Schedule) (floor : ℕ) where
  -- The minutes of a day that `Next` may return.
  abbrev since : ℕ → Bool
  since x = minute_matches s x && leb floor x

  pub first_minute-Earliest :
      (h n m : ℕ)
      → m + n ≤ 60
      → has_bit h s.hour ≡ true
      → Earliest since (h * 60 + m) (h * 60 + m + n) (first_minute s floor h n m)
  unfolding first_minute
  first_minute-Earliest h zero m k e = λ x a b. absurd (omega arith)
  first_minute-Earliest h (suc n) m k e =
      let test : since (h * 60 + m) ≡ (has_bit m s.minute && leb floor (h * 60 + m)) =
        rw (minute_matches-hour s h m (omega arith) e) refl in
      rw (if-or_else (has_bit m s.minute && leb floor (h * 60 + m)), sym test)
        (Earliest-one since (h * 60 + m) (h * 60 + suc m) (h * 60 + m + suc n)
          (first_minute s floor h n (suc m)) (omega arith) (omega arith)
          (Earliest-at since (h * 60 + suc m) (h * 60 + suc m) (h * 60 + suc m + n)
            (h * 60 + m + suc n) (first_minute s floor h n (suc m)) refl (omega arith)
            (first_minute-Earliest h n (suc m) (omega arith) e)))

  pub first_in_hour-Earliest :
      (h : ℕ)
      → has_bit h s.hour ≡ true
      → Earliest since (h * 60) (suc h * 60) (first_in_hour s floor h)
  unfolding first_in_hour
  first_in_hour-Earliest h e =
      Earliest-at since (h * 60 + 0) (h * 60) (h * 60 + 0 + 60) (suc h * 60)
        (first_minute s floor h 60 0) (omega arith) (omega arith)
        (first_minute-Earliest h 60 0 (omega arith) e)

  pub first_hour-Earliest :
      (n h : ℕ) → Earliest since (h * 60) ((h + n) * 60) (first_hour s floor n h)
  unfolding first_hour
  first_hour-Earliest zero h = λ x a b. absurd (omega arith)
  first_hour-Earliest (suc n) h =
      let later = first_hour s floor n (suc h) in
      let more : (o : Option ℕ)
          → Earliest since (h * 60) (suc h * 60) o
          → Earliest since (h * 60) ((h + suc n) * 60) (or_else o later) =
        λ o l.
          Earliest-or_else since (h * 60) (suc h * 60) ((h + suc n) * 60) o later (omega arith)
            (omega arith) l
            (Earliest-at since (suc h * 60) (suc h * 60) ((suc h + n) * 60) ((h + suc n) * 60) later
              refl (omega arith) (first_hour-Earliest n (suc h))) in
      elim (Bool-cases (has_bit h s.hour)) [
        | inl e ↦ rw e (more (first_in_hour s floor h) (first_in_hour-Earliest h e))
        | inr e ↦
            rw e (more none (λ x a b. rw (minute_matches-skipped s h x a (omega arith) e) refl))
      ]

  -- All the hours of a day from the floor's.
  pub first_of_day-Earliest :
      floor < 1440
      → Earliest (minute_matches s) floor 1440 (first_hour s floor (24 - floor / 60) (floor / 60))
  first_of_day-Earliest low =
      let found = first_hour s floor (24 - floor / 60) (floor / 60) in
      Earliest-narrow (minute_matches s) since (floor / 60 * 60) floor 1440 (omega arith) found
        allowed refused
        (Earliest-at since (floor / 60 * 60) (floor / 60 * 60)
          ((floor / 60 + (24 - floor / 60)) * 60) 1440 found refl (omega arith)
          (first_hour-Earliest (24 - floor / 60) (floor / 60)))
    where
      allowed : (x : ℕ) → floor ≤ x → since x ≡ minute_matches s x
      allowed x h =
          let e : leb floor x ≡ true = ground arith in rw e (and_true (minute_matches s x))

      refused : (x : ℕ) → x < floor → since x ≡ false
      refused x h =
          let e : leb floor x ≡ false = ground arith in rw e (and_false (minute_matches s x))

module _ (cal : Calendar) (s : Schedule) where
  today-Earliest :
      (d m : ℕ) (o : Option ℕ)
      → Earliest (minute_matches s) m 1440 o
      → Earliest (matches cal s) (d * 1440 + m) (d * 1440 + 1440) (today cal s d o)
  today-Earliest d m o f =
      let base = d * 1440 in
      elim (Bool-cases (day_matches cal s d)) [
        | inl e ↦ rw e (
            Earliest-shifted (matches cal s) (minute_matches s) base m 1440
              (λ x a. matches-on cal s d x a e) o f)
        | inr e ↦ rw e (λ x a b. matches-off cal s d 1440 (omega arith) e x (omega arith) b)
      ]

  pub first_day-Earliest :
      (n d floor : ℕ)
      → floor < 1440
      → Earliest (matches cal s) (d * 1440 + floor) ((d + n) * 1440) (first_day cal s floor n d)
  unfolding first_day
  first_day-Earliest zero d floor h = λ x a b. absurd (omega arith)
  first_day-Earliest (suc n) d floor h =
      let now = first_hour s floor (24 - floor / 60) (floor / 60) in
      let later = first_day cal s 0 n (suc d) in
      let high = (d + suc n) * 1440 in
      rw (if-today cal s d now later) (
        Earliest-or_else (matches cal s) (d * 1440 + floor) (d * 1440 + 1440) high
          (today cal s d now) later (omega arith) (omega arith)
          (today-Earliest d floor now (first_of_day-Earliest s floor h))
          (Earliest-at (matches cal s) (suc d * 1440 + 0) (d * 1440 + 1440) ((suc d + n) * 1440)
            high later (omega arith) (omega arith) (first_day-Earliest n (suc d) 0 (omega arith))))

  -- `next` returns the first fire of its days after the minute, or there is none.
  pub next-Earliest :
      (t : ℕ)
      → Earliest (matches cal s) (t + 1) (((t + 1) / 1440 + search_days) * 1440) (next cal s t)
  unfolding next
  next-Earliest t =
      let high = ((t + 1) / 1440 + search_days) * 1440 in
      Earliest-at (matches cal s) ((t + 1) / 1440 * 1440 + (t + 1) % 1440) (t + 1) high high
        (first_day cal s ((t + 1) % 1440) search_days ((t + 1) / 1440)) (omega arith) refl
        (first_day-Earliest search_days ((t + 1) / 1440) ((t + 1) % 1440) (omega arith))
