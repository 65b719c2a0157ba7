-- ===== src/Tests/Crons.antt =====
-- internal/cron with a calendar of thirty-day months, whose weeks begin with the first day.
use pages.Common.{
  [], arith, codes, false, refl, some, true, ℕ, ◌%◌, ◌*◌, ◌+◌, ◌-◌, ◌/◌, ◌<◌, ◌↔◌, ◌∷◌, ◌≡◌, ◌≤◌,
}
use pages.Cron.Bounds.{WithinFields, parse-WithinFields}
use pages.Cron.Fields.{parse_item_iff}
use pages.Cron.Gaps.{Quiet, max_gap-bound, next_iff, prev_iff}
use pages.Cron.Items.{ItemText}
use pages.Cron.Lists.{parse_field-print_list, print_list}
use pages.Cron.Parse.{
  days_field, failed, field_count, lone_step, minutes_field, not_a_number, parse, parse_field,
  parse_item, parsed, stepped,
}
use pages.Cron.Schedule.{Calendar, Schedule, has_bit, matches, max_gap, next, prev, search_days}

abbrev pub months : Calendar
months = record {
  month_of = λ d. d / 30 % 12 + 1;
  day_of = λ d. d % 30 + 1;
  weekday_of = λ d. (d + 1) % 7;
}

-- "0 9 * * *"
abbrev pub daily : Schedule
daily = record {
  minute = 0 ∷ [];
  hour = 9 ∷ [];
  dom = stepped 32 1 31 1;
  month = stepped 13 1 12 1;
  dow = stepped 7 0 6 1;
  dom_star = true;
  dow_star = true;
}

prev_day : prev months daily 2000 ≡ some 1980
unfolding prev stepped
prev_day = refl

prev_yesterday : prev months daily 1979 ≡ some 540
unfolding prev stepped
prev_yesterday = refl

next_day : next months daily 540 ≡ some 1980
unfolding next stepped
next_day = refl

one_day : max_gap months daily 20000 ≡ 1440
unfolding max_gap stepped
one_day = refl

prev_iff_example : (prev months daily 1979 ≡ some 540) ↔ (
    (matches months daily 540 ≡ true)
    × (540 ≤ 1979)
    × (1979 / 1440 < 540 / 1440 + search_days)
    × Quiet months daily 540 (1979 + 1))
prev_iff_example = prev_iff months daily 1979 540

next_iff_example : (next months daily 540 ≡ some 1980) ↔ (
    (matches months daily 1980 ≡ true)
    × (540 < 1980)
    × (1980 / 1440 < (540 + 1) / 1440 + search_days)
    × Quiet months daily 540 1980)
next_iff_example = next_iff months daily 540 1980

Quiet-day : Quiet months daily 540 1980
unfolding prev stepped
Quiet-day = let found = (prev_iff months daily 1979 540).0 refl in found.3

FiresAt : (t : ℕ) → Type 0
FiresAt t = matches months daily t ≡ true

first_fire : FiresAt 540
unfolding matches FiresAt stepped
first_fire = refl

second_fire : FiresAt 1980
unfolding matches FiresAt stepped
second_fire = refl

max_gap-bound_example : 1980 - 540 ≤ max_gap months daily 2000
unfolding FiresAt
max_gap-bound_example =
    max_gap-bound months daily 2000 540 1980 first_fire second_fire (omega arith) (omega arith)
      (omega arith) (omega arith) Quiet-day

weekday_mornings : Schedule
weekday_mornings = record {
  minute = 30 ∷ [];
  hour = 14 ∷ [];
  dom = stepped 32 1 31 1;
  month = stepped 13 1 12 1;
  dow = 1 ∷ 2 ∷ 3 ∷ 4 ∷ 5 ∷ [];
  dom_star = true;
  dow_star = false;
}

parse_weekdays : parse months 0 (codes " 30 14 *  * 1-5") ≡ parsed weekday_mornings
unfolding parse weekday_mornings
parse_weekdays = refl

parse_short : parse months 0 (codes "30 14 * *") ≡ failed field_count
unfolding parse
parse_short = refl

parse_names : parse months 0 (codes "30 14 * * MON") ≡ failed not_a_number
unfolding parse
parse_names = refl

parse_lone_step : parse months 0 (codes "5/15 14 * * *") ≡ failed lone_step
unfolding parse
parse_lone_step = refl

parse-WithinFields_example :
    WithinFields weekday_mornings × ((t : ℕ) × (0 < t) × (matches months weekday_mornings t ≡ true))
parse-WithinFields_example =
    parse-WithinFields months 0 (codes " 30 14 *  * 1-5") weekday_mornings parse_weekdays

item_bits : parse_item days_field (codes "1-6/2") ≡ parsed (1 ∷ 3 ∷ 5 ∷ [])
unfolding parse_item
item_bits = refl

parse_item_iff_example :
    (a : ℕ) × (b : ℕ) × (step : ℕ) × ItemText days_field (codes "1-6/2") a b step
    × (1 ≤ a)
    × (a ≤ b)
    × (b ≤ 31)
    × (1 ≤ step)
    × ((x : ℕ) → (has_bit x (1 ∷ 3 ∷ 5 ∷ []) ≡ true) ↔ ((k : ℕ) × (x ≡ a + k * step) × (x ≤ b)))
parse_item_iff_example =
    parse_item_iff days_field (codes "1-6/2") (1 ∷ 3 ∷ 5 ∷ []) (omega arith) item_bits

parse_field-print_list_example :
    parse_field minutes_field (print_list 5 (20 ∷ 59 ∷ [])) ≡ parsed (5 ∷ 20 ∷ 59 ∷ [])
parse_field-print_list_example =
    parse_field-print_list minutes_field 5 (20 ∷ 59 ∷ []) (omega arith)
      ((omega arith, omega arith), ((omega arith, omega arith), ((omega arith, omega arith), tt)))
