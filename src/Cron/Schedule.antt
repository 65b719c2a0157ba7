-- ===== src/Cron/Schedule.antt =====
-- internal/cron/cron.go: a parsed schedule and the searches for its fires. A time is a whole minute,
-- UTC, counted from the year 1, where a search in the past ends. What package `time` says of a day
-- is a parameter. A set of bits is the list of its members.
use pages.Common.{
  Bool, List, Option, [], false, if◌then◌else◌, leb, ltb, max, none, not, some, suc, zero, ℕ, ◌%◌,
  ◌&&◌, ◌*◌, ◌+◌, ◌-◌, ◌/◌, ◌==◌, ◌||◌, ◌∷◌,
}

-- What `time.Time` says of a day: `Month`, `Day` and `Weekday`.
pub record Calendar : Type 0 where
  pub month_of : ℕ → ℕ
  pub day_of : ℕ → ℕ
  pub weekday_of : ℕ → ℕ

-- `Schedule`
pub record Schedule : Type 0 where
  pub minute : List ℕ
  pub hour : List ℕ
  pub dom : List ℕ
  pub month : List ℕ
  pub dow : List ℕ
  pub dom_star : Bool
  pub dow_star : Bool

-- `bits & (1 << n) != 0`
unfoldable pub has_bit : ℕ → List ℕ → Bool
has_bit n [] = false
has_bit n (m ∷ ms) = let rest = has_bit n ms in n == m || rest

abbrev pub search_days : ℕ
search_days = 8 * 366 + 1

-- `dayMatches`
unfoldable pub day_matches : Calendar → Schedule → ℕ → Bool
unfolding has_bit
day_matches cal s d =
    let dom = has_bit (cal.day_of d) s.dom in
    let dow = has_bit (cal.weekday_of d) s.dow in
    if not (has_bit (cal.month_of d) s.month)
    then false
    else (if not s.dom_star && not s.dow_star then dom || dow else dom && dow)

-- The rest of `Matches`, of a minute of the day.
unfoldable pub minute_matches : Schedule → ℕ → Bool
unfolding has_bit
minute_matches s m = has_bit (m / 60) s.hour && has_bit (m % 60) s.minute

-- `Matches`
unfoldable pub matches : Calendar → Schedule → ℕ → Bool
unfolding day_matches minute_matches
matches cal s t = day_matches cal s (t / 1440) && minute_matches s (t % 1440)

-- A loop returns what it finds now, or else what the rest of it finds.
abbrev pub or_else : Option ℕ → Option ℕ → Option ℕ
or_else (some x) o = some x
or_else none o = o

-- `day.Add`, of the minute that the hour and the minute make.
abbrev pub shifted : ℕ → Option ℕ → Option ℕ
shifted b none = none
shifted b (some x) = some (b + x)

-- The loop of `Prev` over `minutesDescend`, from minute `m - 1` down.
unfoldable pub last_minute : Schedule → ℕ → ℕ → ℕ → Option ℕ
unfolding has_bit
last_minute s limit h zero = none
last_minute s limit h (suc m) =
    let earlier = last_minute s limit h m in
    if has_bit m s.minute && leb (h * 60 + m) limit then some (h * 60 + m) else earlier

-- The whole of that loop.
unfoldable pub last_in_hour : Schedule → ℕ → ℕ → Option ℕ
unfolding last_minute
last_in_hour s limit h = last_minute s limit h 60

-- The loop of `Prev` over the hours, from hour `h - 1` down.
unfoldable pub last_hour : Schedule → ℕ → ℕ → Option ℕ
unfolding has_bit last_in_hour
last_hour s limit zero = none
last_hour s limit (suc h) =
    let earlier = last_hour s limit h in
    if not (has_bit h s.hour) then earlier else or_else (last_in_hour s limit h) earlier

-- The loop of `Prev` over at most `n` days, from day `d - 1` down.
unfoldable pub last_day : Calendar → Schedule → ℕ → ℕ → ℕ → Option ℕ
unfolding day_matches last_hour
last_day cal s limit zero d = none
last_day cal s limit (suc n) zero = none
last_day cal s limit (suc n) (suc d) =
    let earlier = last_day cal s 1439 n d in
    if day_matches cal s d
    then or_else (shifted (d * 1440) (last_hour s limit (limit / 60 + 1))) earlier
    else earlier

-- `Prev`; `none` is the zero time.
unfoldable pub prev : Calendar → Schedule → ℕ → Option ℕ
unfolding last_day
prev cal s t = last_day cal s (t % 1440) search_days (t / 1440 + 1)

-- The loop of `Next` over `minutesAsc`: `n` minutes from minute `m`.
unfoldable pub first_minute : Schedule → ℕ → ℕ → ℕ → ℕ → Option ℕ
unfolding has_bit
first_minute s floor h zero m = none
first_minute s floor h (suc n) m =
    let later = first_minute s floor h n (suc m) in
    if has_bit m s.minute && leb floor (h * 60 + m) then some (h * 60 + m) else later

-- The whole of that loop.
unfoldable pub first_in_hour : Schedule → ℕ → ℕ → Option ℕ
unfolding first_minute
first_in_hour s floor h = first_minute s floor h 60 0

-- The loop of `Next` over the hours: `n` hours from hour `h`.
unfoldable pub first_hour : Schedule → ℕ → ℕ → ℕ → Option ℕ
unfolding has_bit first_in_hour
first_hour s floor zero h = none
first_hour s floor (suc n) h =
    let later = first_hour s floor n (suc h) in
    if not (has_bit h s.hour) then later else or_else (first_in_hour s floor h) later

-- The loop of `Next` over at most `n` days from day `d`.
unfoldable pub first_day : Calendar → Schedule → ℕ → ℕ → ℕ → Option ℕ
unfolding day_matches first_hour
first_day cal s floor zero d = none
first_day cal s floor (suc n) d =
    let later = first_day cal s 0 n (suc d) in
    if day_matches cal s d
    then or_else (shifted (d * 1440) (first_hour s floor (24 - floor / 60) (floor / 60))) later
    else later

-- `Next`
unfoldable pub next : Calendar → Schedule → ℕ → Option ℕ
unfolding first_day
next cal s t = first_day cal s ((t + 1) % 1440) search_days ((t + 1) / 1440)

-- `Week`, in minutes.
abbrev pub week : ℕ
week = 7 * 24 * 60

-- The latest fire before a minute; before the year 1 there is none.
unfoldable pub prev_before : Calendar → Schedule → ℕ → Option ℕ
unfolding prev
prev_before cal s zero = none
prev_before cal s (suc t) = prev cal s t

-- The loop of `MaxGap`; it stops at a fire that is not after `end` less a week.
unfoldable pub widest_gap : Calendar → Schedule → ℕ → ℕ → ℕ → ℕ → ℕ
unfolding prev_before
widest_gap cal s zero end later widest = widest
widest_gap cal s (suc n) end later widest = elim (prev_before cal s later) [
  | none ↦ widest
  | some earlier ↦
      let wider = max widest (later - earlier) in
      let rest = widest_gap cal s n end earlier wider in
      if ltb end (earlier + week) then rest else wider
]

-- `MaxGap`
unfoldable pub max_gap : Calendar → Schedule → ℕ → ℕ
unfolding prev widest_gap
max_gap cal s end = elim (prev cal s end) [
  | none ↦ 0
  | some later ↦ widest_gap cal s (7 * 24 * 60 + 1) end later 0
]
