-- ===== src/Refresh/Health.antt =====
-- internal/versions/refreshhealth.go: the verdict on a page's refreshes. The calendar of package
-- `time`, the days that its `Parse` reads and the summary of the coverage gaps that package pagedata
-- writes are parameters. A reason is which message, with its arguments.
use pages.Common.{
  Bool, List, Option, Text, [], codes, false, if◌then◌else◌, ltb, none, not, some, text_eq, true, ℕ,
  ◌*◌, ◌+◌, ◌-◌, ◌/◌, ◌||◌, ◌∷◌,
}
use pages.Cron.Schedule.{Calendar, Schedule, next, prev}
use pages.Refresh.Freshness.{Stamp, after}

-- The coverage gaps of package pagedata, as far as the verdict reads them.
pub record Gaps (Gap : Type 0) : Type 0 where
  pub stopped_on : Gap → Option ℕ
  pub summary : List Gap → Text

-- `Healths`
pub data Health : Type 0 where
  healthy overdue blocked source_stale coverage_gap unscheduled : Health

-- `HealthReason`
pub data Reason : Type 0 where
  no_schedule bad_schedule : Reason
  said : Text → Reason
  recorded : Text → ℕ → Reason
  expected_since : ℕ → ℕ → Reason
  expected_never : ℕ → Reason
  not_advanced no_source : ℕ → Stamp → Reason
  first_due : Stamp → Reason
  on_schedule : ℕ → Reason

abbrev pub refresh_grace : ℕ
refresh_grace = 3 * 3600000

abbrev pub refresh_early : ℕ
refresh_early = 3600000

abbrev pub refresh_stale_slack : ℕ
refresh_stale_slack = 48 * 3600000

abbrev pub unscheduled_stale_after : ℕ
unscheduled_stale_after = 7 * 24 * 3600000

-- `HealthInput`
pub record HealthInput (Gap : Type 0) : Type 0 where
  pub schedule : Text
  pub owner : Text
  pub is_live : Bool
  pub created_at : Stamp
  pub source_as_of : Stamp
  pub refreshed_at : Stamp
  pub newest_refresh_at : Stamp
  pub last_check_at : Stamp
  pub last_check_outcome : Text
  pub last_check_detail : Text
  pub coverage_gaps : List Gap

-- `RefreshHealth`
pub record RefreshHealth (Gap : Type 0) : Type 0 where
  pub refresh_schedule : Option Text
  pub refresh_owner : Option Text
  pub health : Health
  pub health_reason : Reason
  pub health_since : Stamp
  pub last_due_at : Stamp
  pub next_due_at : Stamp
  pub last_activity_at : Stamp
  pub unscheduled_stale : Bool
  pub source_days : Option ℕ
  pub gaps : List Gap

-- `NeedsAttention`, of a block that is there.
abbrev pub needs_attention : Health → Bool
needs_attention blocked = true
needs_attention overdue = true
needs_attention source_stale = true
needs_attention coverage_gap = true
needs_attention _ = false

-- `latest`, of two times.
unfoldable pub latest : Stamp → Stamp → Stamp
latest t u = let first = if after t none then t else none in if after u first then u else first

-- `FailedCheckOutcomes`
abbrev pub failed_check_outcomes : List Text
failed_check_outcomes = codes "source_unreachable" ∷ codes "blocked" ∷ codes "failed" ∷ []

unfoldable pub has_text : Text → List Text → Bool
unfolding text_eq
has_text t [] = false
has_text t (u ∷ us) = text_eq t u || has_text t us

-- `isFailedOutcome`
unfoldable pub is_failed_outcome : Text → Bool
unfolding has_text
is_failed_outcome o = has_text o failed_check_outcomes

abbrev pub minute_ms : ℕ
minute_ms = 60000

abbrev pub from_minute : Option ℕ → Stamp
from_minute none = none
from_minute (some m) = some (m * minute_ms)

-- `s.Prev` and `s.Next` at a time; a time before the year 1 has no fire before it.
unfoldable pub prev_at : Calendar → Schedule → ℕ → Stamp
unfolding prev
prev_at cal s t = from_minute (prev cal s (t / minute_ms))

unfoldable pub next_at : Calendar → Schedule → ℕ → Stamp
unfolding next
next_at cal s t = from_minute (next cal s (t / minute_ms))

unfoldable pub prev_ago : Calendar → Schedule → ℕ → ℕ → Stamp
unfolding prev_at
prev_ago cal s ago t = if ltb t ago then none else prev_at cal s (t - ago)

-- `earlyTolerance`
unfoldable pub early_tolerance : Calendar → Schedule → ℕ → ℕ
unfolding prev_ago
early_tolerance cal s fire = elim (prev_ago cal s minute_ms fire) [
  | none ↦ refresh_early
  | some before ↦
      if ltb ((fire - before) / 2) refresh_early then (fire - before) / 2 else refresh_early
]

-- `covers`
unfoldable pub covers : Calendar → Schedule → Stamp → ℕ → Bool
unfolding early_tolerance
covers cal s none fire = false
covers cal s (some a) fire = not (ltb (a + early_tolerance cal s fire) fire)

-- `firstMissed` passes over a fire that the activity answers.
unfoldable pub pass_over : Calendar → Schedule → ℕ → Stamp → Stamp
unfolding next_at covers
pass_over cal s a none = none
pass_over cal s a (some f) = if covers cal s (some a) f then next_at cal s f else some f

-- `since.IsZero() || since.After(due)`
abbrev pub no_later : Stamp → ℕ → ℕ
no_later none due = due
no_later (some f) due = if ltb due f then due else f

-- `firstMissed`
unfoldable pub first_missed : Calendar → Schedule → ℕ → ℕ → ℕ
unfolding pass_over next_at
first_missed cal s a due = no_later (pass_over cal s a (next_at cal s a)) due
