-- ===== src/Refresh/Verdict.antt =====
-- internal/versions/refreshhealth.go: `HealthOf`, rule by rule in its order.
use pages.Common.{
  Bool, List, Option, Text, [], false, if◌then◌else◌, ltb, none, not, some, text_eq, ℕ, ◌&&◌, ◌*◌,
  ◌++◌, ◌+◌, ◌-◌, ◌/◌, ◌∷◌,
}
use pages.Common.Strings.{fields_from}
use pages.Cron.Parse.{failed, parse, parsed}
use pages.Cron.Schedule.{Calendar, Schedule, max_gap}
use pages.Jsstr.{slice, trim, utf16_len}
use pages.Refresh.Freshness.{Stamp, after, day_ms, days_since, no_source_yet, source_stamp, str_ptr}
use pages.Refresh.Health.{
  Gaps, Health, HealthInput, Reason, RefreshHealth, bad_schedule, blocked, coverage_gap, covers,
  expected_never, expected_since, first_due, first_missed, healthy, is_failed_outcome, latest,
  minute_ms, next_at, no_later, no_schedule, no_source, not_advanced, on_schedule, overdue,
  prev_ago, prev_at, recorded, refresh_grace, refresh_stale_slack, said, source_stale, unscheduled,
  unscheduled_stale_after,
}

-- What a rule finds: the verdict, its reason and since when.
pub record Found : Type 0 where
  pub verdict : Health
  pub why : Reason
  pub since : Stamp

unfoldable pub join_words : List Text → Text
join_words [] = []
join_words (w ∷ []) = w
join_words (w ∷ v ∷ ws) = w ++ 32 ∷ join_words (v ∷ ws)

-- `clipReason`
unfoldable pub clip_reason : Text → Text
unfolding fields_from join_words utf16_len slice
clip_reason s =
    let plain = join_words (fields_from [] s) in
    if ltb 300 (utf16_len plain) then slice plain 0 299 ++ 8230 ∷ [] else plain

-- The reason of a failed check.
abbrev pub check_reason : Text → Text → ℕ → Reason
check_reason [] outcome last_check = recorded outcome last_check
check_reason (c ∷ cs) outcome last_check = said (clip_reason (c ∷ cs))

-- The latest outcome is a failed check.
unfoldable pub find_blocked : Text → Text → Stamp → Stamp → Option Found
unfolding is_failed_outcome trim clip_reason
find_blocked outcome detail last_refresh none = none
find_blocked outcome detail last_refresh (some check) =
    if not (after last_refresh (some check)) && is_failed_outcome outcome
    then some (record {
      verdict = blocked;
      why = check_reason (trim detail) outcome check;
      since = some check;
    })
    else none

module _ (cal : Calendar) (s : Schedule) where
  -- The latest fire whose grace has passed is not answered.
  unfoldable pub find_overdue : Stamp → Stamp → Stamp → Option Found
  unfolding covers first_missed next_at
  find_overdue created activity none = none
  find_overdue created (some a) (some due) =
      if not (covers cal s (some a) due)
      then some (record {
        verdict = overdue;
        why = expected_since due a;
        since = some (first_missed cal s a due);
      })
      else none
  find_overdue none none (some due) = none
  find_overdue (some c) none (some due) =
      if ltb c due
      then some (record {
        verdict = overdue;
        why = expected_never due;
        since = some (no_later (next_at cal s c) due);
      })
      else none

-- The data is older than the longest gap and the slack; `since` is its time, or the page's creation
-- when it waits for its first data.
unfoldable pub find_stale : Bool → Stamp → Stamp → ℕ → ℕ → Option Found
find_stale waiting none activity gap now = none
find_stale waiting (some t) activity gap now =
    if ltb 0 gap && ltb (gap + refresh_stale_slack) (now - t)
    then some (record {
      verdict = source_stale;
      why = if waiting then no_source t activity else not_advanced t activity;
      since = some t;
    })
    else none

module _ {Gap : Type 0} (reader : Gaps Gap) where
  -- `coverageGapSince`, after the gaps already read.
  unfoldable pub coverage_gap_since : Stamp → List Gap → Stamp
  coverage_gap_since since [] = since
  coverage_gap_since since (g ∷ gs) = elim (reader.stopped_on g) [
    | none ↦ coverage_gap_since since gs
    | some day ↦ coverage_gap_since (sooner since (day + day_ms)) gs
  ]
    where
      sooner : Stamp → ℕ → Stamp
      sooner none day = some day
      sooner (some t) day = if ltb day t then some day else some t

  unfoldable pub find_gap : List Gap → Option Found
  unfolding clip_reason coverage_gap_since
  find_gap [] = none
  find_gap (g ∷ gs) = some (record {
    verdict = coverage_gap;
    why = said (clip_reason (reader.summary (g ∷ gs)));
    since = coverage_gap_since none (g ∷ gs);
  })

abbrev pub healthy_reason : Stamp → Stamp → Reason
healthy_reason none due = first_due due
healthy_reason (some a) due = on_schedule a

-- The first rule that holds: `if … { …; return h }`.
infixr 6 ◌orelse◌
abbrev pub ◌orelse◌ : Option Found → Found → Found
some found orelse more = found
none orelse more = more

module _ {Gap : Type 0} (reader : Gaps Gap) (cal : Calendar) where
  -- `lastRefresh` and `activity`
  unfoldable pub last_refresh : HealthInput Gap → Stamp
  unfolding latest
  last_refresh input = latest input.refreshed_at input.newest_refresh_at

  unfoldable pub last_activity : HealthInput Gap → Stamp
  unfolding last_refresh
  last_activity input = latest (last_refresh input) input.last_check_at

  -- The time that staleness counts from.
  unfoldable pub data_since : HealthInput Gap → Stamp
  unfolding source_stamp
  data_since input =
      if no_source_yet input.source_as_of then input.created_at else source_stamp input.source_as_of

  -- The verdict on a page that has a schedule.
  unfoldable pub judge : Schedule → HealthInput Gap → ℕ → Found
  unfolding last_refresh last_activity data_since find_blocked find_overdue find_stale find_gap
      prev_ago next_at max_gap
  judge s input now =
      let activity = last_activity input in
      find_blocked input.last_check_outcome input.last_check_detail (last_refresh input)
        input.last_check_at
      orelse find_overdue cal s input.created_at activity (prev_ago cal s refresh_grace now)
      orelse find_stale (no_source_yet input.source_as_of) (data_since input) activity
          (max_gap cal s (now / minute_ms) * minute_ms) now
      orelse find_gap reader input.coverage_gaps
      orelse record {
        verdict = healthy;
        why = healthy_reason activity (next_at cal s now);
        since = none;
      }

  -- The hint beside the verdict on a page without a schedule.
  unfoldable pub is_unscheduled_stale : HealthInput Gap → ℕ → Bool
  unfolding source_stamp
  is_unscheduled_stale input now = input.is_live && (elim (source_stamp input.source_as_of) [
    | none ↦ false
    | some t ↦ ltb unscheduled_stale_after (now - t)
  ])

  -- The gaps are listed when they are the verdict.
  abbrev pub listed_gaps : Health → List Gap → List Gap
  listed_gaps coverage_gap gaps = gaps
  listed_gaps _ gaps = []

  -- The block of a page that is not judged.
  unfoldable pub not_judged : Reason → Bool → HealthInput Gap → ℕ → RefreshHealth Gap
  unfolding last_activity source_stamp days_since str_ptr
  not_judged reason stale input now = record {
    refresh_schedule = str_ptr input.schedule;
    refresh_owner = str_ptr input.owner;
    health = unscheduled;
    health_reason = reason;
    health_since = none;
    last_due_at = none;
    next_due_at = none;
    last_activity_at = last_activity input;
    unscheduled_stale = stale;
    source_days = days_since (source_stamp input.source_as_of) now;
    gaps = [];
  }

  -- The block of a page that is judged.
  unfoldable pub judged : Schedule → HealthInput Gap → ℕ → RefreshHealth Gap
  unfolding judge last_activity source_stamp days_since str_ptr prev_at next_at
  judged s input now =
      let found = judge s input now in
      record {
        refresh_schedule = str_ptr input.schedule;
        refresh_owner = str_ptr input.owner;
        health = found.verdict;
        health_reason = found.why;
        health_since = found.since;
        last_due_at = prev_at cal s now;
        next_due_at = next_at cal s now;
        last_activity_at = last_activity input;
        unscheduled_stale = false;
        source_days = days_since (source_stamp input.source_as_of) now;
        gaps = listed_gaps found.verdict input.coverage_gaps;
      }

  -- `HealthOf`; `start` is the first minute of the year 2000, for the parser.
  unfoldable pub health_of : ℕ → HealthInput Gap → ℕ → RefreshHealth Gap
  unfolding parse not_judged judged is_unscheduled_stale
  health_of start input now =
      if text_eq input.schedule []
      then not_judged no_schedule (is_unscheduled_stale input now) input now
      else elim (parse cal start input.schedule) [
        | failed e ↦ not_judged bad_schedule false input now
        | parsed s ↦ judged s input now
      ]
