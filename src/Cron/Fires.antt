-- ===== src/Cron/Fires.antt =====
-- internal/cron/cron.go: what the loops of `Prev` and `Next` find.
use pages.Common.{
  Bool, Bool-cases, Option, ap, arith, false, if◌then◌else◌, inl, inr, leb, none, refl, some, suc,
  sym, true, zero, ℕ, ◌%◌, ◌&&◌, ◌*◌, ◌+◌, ◌-◌, ◌/◌, ◌<◌, ◌∙◌, ◌≡◌, ◌≤◌,
}
use pages.Cron.Schedule.{
  Calendar, Schedule, day_matches, has_bit, last_day, last_hour, last_in_hour, last_minute, matches,
  minute_matches, or_else, prev, search_days, shifted,
}
use pages.Cron.Search.{
  Latest, Latest-at, Latest-empty, Latest-narrow, Latest-one, Latest-or_else, Latest-shifted,
}
use mathlib.Core.Path.{subst}

-- A loop's test, as a choice of what it finds now.
pub if-or_else :
    (b : Bool) (x : ℕ) (o : Option ℕ)
    → (if b then some x else o) ≡ or_else (if b then some x else none) o
if-or_else true x o = refl
if-or_else false x o = refl

pub and_true : (b : Bool) → (b && true) ≡ b
and_true true = refl
and_true false = refl

pub and_false : (b : Bool) → (b && false) ≡ false
and_false true = refl
and_false false = refl

-- A minute of an hour that the schedule names.
pub minute_matches-hour :
    (s : Schedule) (h m : ℕ)
    → m < 60
    → has_bit h s.hour ≡ true
    → minute_matches s (h * 60 + m) ≡ has_bit m s.minute
unfolding minute_matches
minute_matches-hour s h m k e =
    let quotient : (h * 60 + m) / 60 ≡ h = omega arith in
    let remainder : (h * 60 + m) % 60 ≡ m = omega arith in rw (quotient, remainder, e) refl

-- An hour that the schedule does not name.
pub minute_matches-skipped :
    (s : Schedule) (h x : ℕ)
    → h * 60 ≤ x
    → x < h * 60 + 60
    → has_bit h s.hour ≡ false
    → minute_matches s x ≡ false
unfolding minute_matches
minute_matches-skipped s h x a b e =
    let quotient : x / 60 ≡ h = omega arith in rw (quotient, e) refl

module _ (s : Schedule) (limit : ℕ) where
  -- The minutes of a day that `Prev` may return.
  abbrev until : ℕ → Bool
  until x = minute_matches s x && leb x limit

  pub last_minute-Latest :
      (h m : ℕ)
      → m ≤ 60
      → has_bit h s.hour ≡ true
      → Latest until (h * 60) (h * 60 + m) (last_minute s limit h m)
  unfolding last_minute
  last_minute-Latest h zero k e = Latest-empty until (h * 60) (h * 60 + 0) (omega arith)
  last_minute-Latest h (suc m) k e =
      let test : until (h * 60 + m) ≡ (has_bit m s.minute && leb (h * 60 + m) limit) =
        rw (minute_matches-hour s h m (omega arith) e) refl in
      rw (if-or_else (has_bit m s.minute && leb (h * 60 + m) limit), sym test)
        (Latest-one until (h * 60) (h * 60 + m) (h * 60 + suc m) (last_minute s limit h m)
          (omega arith) (omega arith) (last_minute-Latest h m (omega arith) e))

  pub last_in_hour-Latest :
      (h : ℕ)
      → has_bit h s.hour ≡ true
      → Latest until (h * 60) (suc h * 60) (last_in_hour s limit h)
  unfolding last_in_hour
  last_in_hour-Latest h e =
      subst (λ x. Latest until (h * 60) x (last_minute s limit h 60)) (omega arith)
        (last_minute-Latest h 60 (omega arith) e)

  pub last_hour-Latest : (h : ℕ) → Latest until 0 (h * 60) (last_hour s limit h)
  unfolding last_hour
  last_hour-Latest zero = Latest-empty until 0 (zero * 60) (omega arith)
  last_hour-Latest (suc h) =
      let more : (o : Option ℕ)
          → Latest until (h * 60) (suc h * 60) o
          → Latest until 0 (suc h * 60) (or_else o (last_hour s limit h)) =
        λ o l.
          Latest-or_else until 0 (h * 60) (suc h * 60) o (last_hour s limit h) (omega arith)
            (omega arith) l (last_hour-Latest h) in
      elim (Bool-cases (has_bit h s.hour)) [
        | inl e ↦ rw e (more (last_in_hour s limit h) (last_in_hour-Latest h e))
        | inr e ↦
            rw e (more none (λ x a b. rw (minute_matches-skipped s h x a (omega arith) e) refl))
      ]

  -- All the hours of a day up to the limit's.
  pub last_of_day-Latest :
      Latest (minute_matches s) 0 (limit + 1) (last_hour s limit (limit / 60 + 1))
  last_of_day-Latest =
      Latest-narrow (minute_matches s) until 0 (limit + 1) ((limit / 60 + 1) * 60) (omega arith)
        (last_hour s limit (limit / 60 + 1)) (λ x h. allowed x (omega arith))
        (λ x h k. refused x (omega arith)) (last_hour-Latest (limit / 60 + 1))
    where
      allowed : (x : ℕ) → x ≤ limit → until x ≡ minute_matches s x
      allowed x h =
          let e : leb x limit ≡ true = ground arith in rw e (and_true (minute_matches s x))

      refused : (x : ℕ) → limit < x → until x ≡ false
      refused x h =
          let e : leb x limit ≡ false = ground arith in rw e (and_false (minute_matches s x))

module _ (cal : Calendar) (s : Schedule) where
  -- A minute of a day.
  matches-day :
      (d x : ℕ)
      → x < 1440
      → matches cal s (d * 1440 + x) ≡ (day_matches cal s d && minute_matches s x)
  unfolding matches
  matches-day d x h =
      let quotient : (d * 1440 + x) / 1440 ≡ d = omega arith in
      let remainder : (d * 1440 + x) % 1440 ≡ x = omega arith in rw (quotient, remainder) refl

  -- What is found of one day.
  abbrev pub today : ℕ → Option ℕ → Option ℕ
  today d o = if day_matches cal s d then shifted (d * 1440) o else none

  pub matches-off :
      (d n : ℕ)
      → n ≤ 1440
      → day_matches cal s d ≡ false
      → (x : ℕ) → d * 1440 ≤ x
      → x < d * 1440 + n
      → matches cal s x ≡ false
  matches-off d n h e x a b =
      let y : d * 1440 + (x - d * 1440) ≡ x = omega arith in
      ap (matches cal s) (sym y) ∙ matches-day d (x - d * 1440) (omega arith) ∙ rw e refl

  pub matches-on :
      (d x : ℕ)
      → x < 1440
      → day_matches cal s d ≡ true
      → matches cal s (d * 1440 + x) ≡ minute_matches s x
  matches-on d x h e = matches-day d x h ∙ rw e refl

  today-Latest :
      (d n : ℕ) (o : Option ℕ)
      → n ≤ 1440
      → Latest (minute_matches s) 0 n o
      → Latest (matches cal s) (d * 1440) (d * 1440 + n) (today d o)
  today-Latest d n o h f =
      let base = d * 1440 in
      elim (Bool-cases (day_matches cal s d)) [
        | inl e ↦ rw e (
            Latest-at (matches cal s) (base + 0) base (base + n) (base + n) (shifted base o)
              (omega arith) refl
              (Latest-shifted (matches cal s) (minute_matches s) base 0 n
                (λ x a. matches-on d x (omega arith) e) o f))
        | inr e ↦ rw e (matches-off d n h e)
      ]

  pub if-today :
      (d : ℕ) (o more : Option ℕ)
      → (if day_matches cal s d then or_else (shifted (d * 1440) o) more else more)
        ≡ or_else (today d o) more
  if-today d o more = elim (Bool-cases (day_matches cal s d)) [
    | inl e ↦ rw e refl
    | inr e ↦ rw e refl
  ]

  pub last_day-Latest :
      (n d limit : ℕ)
      → limit < 1440
      → Latest
          (matches cal s)
          ((d - n) * 1440)
          (d * 1440 + limit + 1 - 1440)
          (last_day cal s limit n d)
  unfolding last_day
  last_day-Latest zero d limit h =
      Latest-empty (matches cal s) ((d - zero) * 1440) (d * 1440 + limit + 1 - 1440) (omega arith)
  last_day-Latest (suc n) zero limit h =
      Latest-empty (matches cal s) ((zero - suc n) * 1440) (zero * 1440 + limit + 1 - 1440)
        (omega arith)
  last_day-Latest (suc n) (suc d) limit h =
      let now = last_hour s limit (limit / 60 + 1) in
      let earlier = last_day cal s 1439 n d in
      let low = (d - n) * 1440 in
      rw (if-today d now earlier) (
        Latest-at (matches cal s) low ((suc d - suc n) * 1440) (d * 1440 + (limit + 1))
          (suc d * 1440 + limit + 1 - 1440) (or_else (today d now) earlier) (omega arith)
          (omega arith)
          (Latest-or_else (matches cal s) low (d * 1440) (d * 1440 + (limit + 1)) (today d now)
            earlier (omega arith) (omega arith)
            (today-Latest d (limit + 1) now (omega arith) (last_of_day-Latest s limit))
            (Latest-at (matches cal s) low low (d * 1440 + 1439 + 1 - 1440) (d * 1440) earlier refl
              (omega arith) (last_day-Latest n d 1439 (omega arith)))))

  -- `prev` returns the latest fire of its days at or before the minute, or there is none.
  pub prev-Latest :
      (t : ℕ) → Latest (matches cal s) ((t / 1440 + 1 - search_days) * 1440) (t + 1) (prev cal s t)
  unfolding prev
  prev-Latest t =
      let low = (t / 1440 + 1 - search_days) * 1440 in
      Latest-at (matches cal s) low low ((t / 1440 + 1) * 1440 + t % 1440 + 1 - 1440) (t + 1)
        (last_day cal s (t % 1440) search_days (t / 1440 + 1)) refl (omega arith)
        (last_day-Latest search_days (t / 1440 + 1) (t % 1440) (omega arith))
