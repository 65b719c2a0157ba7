-- ===== src/Cron/Bounds.antt =====
-- internal/cron/cron.go: every schedule that `Parse` returns.
use pages.Common.{
  Bool-cases, List, Option-cases, Text, [], arith, false, inl, inr, ltb, true, ℕ, ◌<◌, ◌==◌, ◌∷◌,
  ◌≡◌,
}
use pages.Common.Strings.{byte_len, fields_from}
use pages.Cron.Fields.{parse_field-InField}
use pages.Cron.Gaps.{next_iff}
use pages.Cron.Parse.{
  Field, check_fires, days_field, drop_seven, failed, hours_field, minutes_field, months_field,
  never_fires, parse, parse_field, parse_parts, parsed, sunday_too, too_long, weekdays_field, ◌>>=◌,
}
use pages.Cron.Schedule.{Calendar, Schedule, has_bit, matches, next}
use pages.Cron.Values.{>>=-parsed, InField, Parsed-cases, parsed_inj}
use mathlib.Core.Path.{subst}

-- Sunday is 0 alone.
abbrev weekdays : Field
weekdays = record { low = 0; high = 6 }

drop_seven-InField :
    (days : List ℕ) → InField weekdays_field days → InField weekdays (drop_seven days)
unfolding drop_seven
drop_seven-InField [] h = tt
drop_seven-InField (d ∷ days) h = elim (Bool-cases (d == 7)) [
  | inl e ↦ rw e (drop_seven-InField days h.1)
  | inr e ↦ rw e ((omega arith, (let k = h.0.1 in ground arith)), drop_seven-InField days h.1)
]

has_seven-InField :
    (days : List ℕ) → has_bit 7 days ≡ false → InField weekdays_field days → InField weekdays days
unfolding has_bit
has_seven-InField [] e h = tt
has_seven-InField (d ∷ days) e h = elim (Bool-cases (7 == d)) [
  | inl q ↦ let no : true ≡ false = rw q at e in cc
  | inr q ↦ ((omega arith, (let k = h.0.1 in ground arith)), has_seven-InField days (rw q at e) h.1)
]

sunday_too-InField :
    (days : List ℕ) → InField weekdays_field days → InField weekdays (sunday_too days)
unfolding sunday_too
sunday_too-InField days h = elim (Bool-cases (has_bit 7 days)) [
  | inl e ↦ rw e ((omega arith, omega arith), drop_seven-InField days h)
  | inr e ↦ rw e (has_seven-InField days e h)
]

-- Every field's bits are within its bounds.
abbrev pub WithinFields : Schedule → Type 0
WithinFields s =
    InField minutes_field s.minute
    × InField hours_field s.hour
    × InField days_field s.dom
    × InField months_field s.month
    × InField weekdays s.dow

parse_parts-WithinFields :
    (parts : List Text) (s : Schedule) → parse_parts parts ≡ parsed s → WithinFields s
unfolding parse_parts
parse_parts-WithinFields (a ∷ b ∷ c ∷ d ∷ e ∷ []) s h =
    elim (Parsed-cases (parse_field minutes_field a)) [
      | inr (r, p) ↦ let no : failed r ≡ parsed s = rw p at h in cc
      | inl (minute, p) ↦ elim (Parsed-cases (parse_field hours_field b)) [
        | inr (r, q) ↦ let no : failed r ≡ parsed s = rw (p, q) at h in cc
        | inl (hour, q) ↦ elim (Parsed-cases (parse_field days_field c)) [
          | inr (r, u) ↦ let no : failed r ≡ parsed s = rw (p, q, u) at h in cc
          | inl (dom, u) ↦ elim (Parsed-cases (parse_field months_field d)) [
            | inr (r, v) ↦ let no : failed r ≡ parsed s = rw (p, q, u, v) at h in cc
            | inl (month, v) ↦ elim (Parsed-cases (parse_field weekdays_field e)) [
              | inr (r, w) ↦ let no : failed r ≡ parsed s = rw (p, q, u, v, w) at h in cc
              | inl (dow, w) ↦
                  let same = parsed_inj (rw (p, q, u, v, w) at h) in
                  subst WithinFields same (
                    parse_field-InField minutes_field a minute (omega arith) p,
                    parse_field-InField hours_field b hour (omega arith) q,
                    parse_field-InField days_field c dom (omega arith) u,
                    parse_field-InField months_field d month (omega arith) v,
                    sunday_too-InField dow
                        (parse_field-InField weekdays_field e dow (omega arith) w),
                  )
            ]
          ]
        ]
      ]
    ]
parse_parts-WithinFields _ s h = cc

check_fires-matches :
    (cal : Calendar) (start : ℕ) (r s : Schedule)
    → check_fires cal start r ≡ parsed s
    → (r ≡ s) × ((t : ℕ) × (start < t) × (matches cal r t ≡ true))
unfolding check_fires
check_fires-matches cal start r s e = elim (Option-cases (next cal r start)) [
  | inl never ↦ let no : failed never_fires ≡ parsed s = rw (never, check_fires) at e in cc
  | inr (t, f) ↦
      let found = (next_iff cal r start t).0 f in
      (parsed_inj (rw (f, check_fires) at e), (t, found.1, found.0))
]

-- A schedule that `Parse` returns has every bit within the bounds of its field, with Sunday as 0
-- only, and fires at some time after the minute `start`.
pub parse-WithinFields :
    (cal : Calendar) (start : ℕ) (expr : Text) (s : Schedule)
    → parse cal start expr ≡ parsed s
    → WithinFields s × ((t : ℕ) × (start < t) × (matches cal s t ≡ true))
unfolding parse check_fires
parse-WithinFields cal start expr s e = elim (Bool-cases (ltb 100 (byte_len expr))) [
  | inl long ↦ let no : failed too_long ≡ parsed s = rw long at e in cc
  | inr short ↦
      let whole : (parse_parts (fields_from [] expr) >>= check_fires cal start) ≡ parsed s =
        rw short at e in
      let (r, q, c) =
        >>=-parsed (parse_parts (fields_from [] expr)) (check_fires cal start) s whole in
      let (same, (t, after, fires)) = check_fires-matches cal start r s c in
      (
        subst WithinFields same (parse_parts-WithinFields (fields_from [] expr) r q),
        (t, after, subst (λ x. matches cal x t ≡ true) same fires),
      )
]
