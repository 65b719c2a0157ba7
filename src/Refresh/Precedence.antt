-- ===== src/Refresh/Precedence.antt =====
-- internal/versions/refreshhealth.go: the rules of the file's first comment, and the verdict that
-- `HealthOf` reaches.
use pages.Common.{[], false, none, some, true, ℕ, ◌*◌, ◌+◌, ◌-◌, ◌/◌, ◌<◌, ◌≡◌, ◌≢◌}
use pages.Cron.Schedule.{Calendar, Schedule, max_gap}
use pages.Refresh.Freshness.{after, no_source_yet}
use pages.Refresh.Health.{
  Gaps, Health, HealthInput, blocked, coverage_gap, healthy, is_failed_outcome, minute_ms, next_at,
  overdue, prev_ago, refresh_grace, refresh_stale_slack, source_stale,
}
use pages.Refresh.Rules.{Late, blocked-Finds, first_of, gap-Finds, overdue-Finds, stale-Finds}
use pages.Refresh.Verdict.{
  Found, data_since, find_blocked, find_gap, find_overdue, find_stale, healthy_reason, judge,
  last_activity, last_refresh, ◌orelse◌,
}

module _ {Gap : Type 0} (reader : Gaps Gap) (cal : Calendar) (s : Schedule) where
  -- The latest thing that happened to the page is a check whose outcome is a failure.
  abbrev pub FailedCheck : HealthInput Gap → Type 0
  FailedCheck input =
      (check : ℕ) × (input.last_check_at ≡ some check)
      × (after (last_refresh reader cal input) (some check) ≡ false)
      × (is_failed_outcome input.last_check_outcome ≡ true)

  -- The latest fire that is at least the grace old was not answered.
  abbrev pub Unanswered : HealthInput Gap → ℕ → Type 0
  Unanswered input now =
      (due : ℕ) × (prev_ago cal s refresh_grace now ≡ some due)
      × Late cal s input.created_at (last_activity reader cal input) due

  -- The data, or the wait for the first data, is older than the longest gap and the slack.
  abbrev pub TooOld : HealthInput Gap → ℕ → Type 0
  TooOld input now =
      (t : ℕ) × (data_since reader cal input ≡ some t)
      × (0 < max_gap cal s (now / minute_ms) * minute_ms)
      × (max_gap cal s (now / minute_ms) * minute_ms + refresh_stale_slack < now - t)

  -- The first rule that holds.
  pub data Rule (input : HealthInput Gap) (now : ℕ) : Health → Type 0 where
    by_check : FailedCheck input → Rule input now blocked
    by_fire : (FailedCheck input → ⊥) → Unanswered input now → Rule input now overdue
    by_age :
        (FailedCheck input → ⊥)
        → (Unanswered input now → ⊥)
        → TooOld input now
        → Rule input now source_stale
    by_gap :
        (FailedCheck input → ⊥)
        → (Unanswered input now → ⊥)
        → (TooOld input now → ⊥)
        → input.coverage_gaps ≢ []
        → Rule input now coverage_gap
    by_none :
        (FailedCheck input → ⊥)
        → (Unanswered input now → ⊥)
        → (TooOld input now → ⊥)
        → (input.coverage_gaps ≢ [] → ⊥)
        → Rule input now healthy

  -- The verdict on a page that has a schedule is that of the first rule that holds, in this order: a
  -- failed check, an unanswered fire, old data, a coverage gap, none of these.
  pub judge-Rule :
      (input : HealthInput Gap) (now : ℕ) → Rule input now ((judge reader cal s input now).verdict)
  unfolding judge
  judge-Rule input now =
      let activity = last_activity reader cal input in
      let gap = max_gap cal s (now / minute_ms) * minute_ms in
      let refresh = last_refresh reader cal input in
      let by_gaps = find_gap reader input.coverage_gaps in
      let by_ages =
        find_stale (no_source_yet input.source_as_of) (data_since reader cal input) activity gap
          now in
      let by_fires =
        find_overdue cal s input.created_at activity (prev_ago cal s refresh_grace now) in
      let by_checks =
        find_blocked input.last_check_outcome input.last_check_detail refresh input.last_check_at in
      let fine : Found = record {
        verdict = healthy;
        why = healthy_reason activity (next_at cal s now);
        since = none;
      } in
      let more = by_gaps orelse fine in
      first_of by_checks (by_fires orelse by_ages orelse more) blocked (FailedCheck input)
        (Rule input now)
        (blocked-Finds input.last_check_outcome input.last_check_detail refresh input.last_check_at)
        by_check
        (λ c.
          first_of by_fires (by_ages orelse more) overdue (Unanswered input now) (Rule input now)
            (overdue-Finds cal s input.created_at activity (prev_ago cal s refresh_grace now))
            (by_fire c)
            (λ f.
              first_of by_ages more source_stale (TooOld input now) (Rule input now)
                (stale-Finds (no_source_yet input.source_as_of) (data_since reader cal input)
                  activity gap now)
                (by_age c f)
                (λ a.
                  first_of by_gaps fine coverage_gap (input.coverage_gaps ≢ []) (Rule input now)
                    (gap-Finds reader input.coverage_gaps) (by_gap c f a) (by_none c f a))))
