-- ===== src/Tests/Refreshes.antt =====
-- internal/versions/refreshhealth.go with a schedule of one fire a day, at nine.
use pages.Common.{
  List, Text, [], arith, codes, false, length, map, none, refl, some, true, ℕ, ◌*◌, ◌+◌, ◌<◌, ◌∷◌,
  ◌≡◌, ◌≤◌,
}
use pages.Cron.Parse.{stepped}
use pages.Cron.Schedule.{matches}
use pages.Refresh.Alarms.{Says, blocked-Says, fresh_input, healthy-answered, overdue-fire}
use pages.Refresh.Freshness.{freshness_of, str_ptr}
use pages.Refresh.Health.{
  Gaps, Health, HealthInput, blocked, healthy, is_failed_outcome, minute_ms, overdue, refresh_early,
  refresh_grace,
}
use pages.Refresh.Order.{attention, list_refresh_health-counts, total}
use pages.Refresh.Precedence.{Rule, judge-Rule}
use pages.Refresh.Report.{HealthRow, list_refresh_health, row_less, text_less}
use pages.Refresh.Sorting.{Sorted, list_refresh_health-Sorted, row_key}
use pages.Refresh.Verdict.{judge, last_activity}
use pages.Tests.Crons.{daily, months}

abbrev no_gaps : Gaps ℕ
no_gaps = record { stopped_on = λ d. some d; summary = λ gaps. codes "rows stopped" }

-- A page that was refreshed at a minute.
abbrev page : ℕ → HealthInput ℕ
page m = record {
  schedule = codes "0 9 * * *";
  owner = [];
  is_live = true;
  created_at = some 1;
  source_as_of = none;
  refreshed_at = some (m * 60000);
  newest_refresh_at = none;
  last_check_at = none;
  last_check_outcome = [];
  last_check_detail = [];
  coverage_gaps = [];
}

abbrev failing : HealthInput ℕ
failing = record (page 19300) {
  last_check_at = some (19500 * 60000);
  last_check_outcome = codes "failed";
}

abbrev now : ℕ
now = 20000 * 60000

-- What decides the verdict is computed.
abbrev verdict_of : HealthInput ℕ → Health
verdict_of input = (judge no_gaps months daily input now).verdict

healthy_page : verdict_of (page 19300) ≡ healthy
unfolding judge stepped
healthy_page = refl

overdue_page : verdict_of (page 19000) ≡ overdue
unfolding judge stepped
overdue_page = refl

blocked_page : verdict_of failing ≡ blocked
unfolding judge stepped
blocked_page = refl

late_fire : matches months daily 19260 ≡ true
unfolding matches stepped
late_fire = refl

judge-Rule_example : Rule no_gaps months daily (page 19000) now (verdict_of (page 19000))
judge-Rule_example = judge-Rule no_gaps months daily (page 19000) now

overdue-fire_example :
    (u : ℕ) × (matches months daily u ≡ true)
    × (u * minute_ms + refresh_grace ≤ now)
    × ((a : ℕ) → last_activity no_gaps months (page 19000) ≡ some a → a < u * minute_ms)
    × (last_activity no_gaps months (page 19000) ≡ none
        → (c : ℕ) × (some 1 ≡ some c) × (c < u * minute_ms))
overdue-fire_example = overdue-fire no_gaps months daily (page 19000) now overdue_page

seen : last_activity no_gaps months (page 19300) ≡ some (19300 * 60000)
unfolding last_activity
seen = refl

healthy-answered_example : 19260 * minute_ms ≤ 19300 * 60000 + refresh_early
healthy-answered_example =
    healthy-answered no_gaps months daily (page 19300) now (19300 * 60000) 19260 healthy_page seen
      late_fire (omega arith) (omega arith)

blocked-Says_example :
    Says (freshness_of (fresh_input no_gaps months failing none) now) (str_ptr (codes "failed"))
    × (is_failed_outcome (codes "failed") ≡ true)
blocked-Says_example = blocked-Says no_gaps months daily failing none now blocked_page

abbrev no_text : Text
no_text = []

abbrev rows : List HealthRow
rows =
    record {
      slug = codes "a";
      row_health = healthy;
      row_since = none;
      row_source = none;
      hinted = false;
    }
    ∷ record {
      slug = codes "b";
      row_health = blocked;
      row_since = some 5;
      row_source = none;
      hinted = false;
    }
    ∷ record {
      slug = codes "c";
      row_health = blocked;
      row_since = some 3;
      row_source = none;
      hinted = false;
    }
    ∷ []

list_refresh_health-counts_example :
    (total (list_refresh_health true rows).0 ≡ length rows)
    × (attention (list_refresh_health true rows).0 ≡ length (list_refresh_health true rows).1)
    × (total (list_refresh_health false rows).0 ≡ length rows)
    × (length (list_refresh_health false rows).1 ≡ length rows)
list_refresh_health-counts_example = list_refresh_health-counts rows

list_refresh_health-Sorted_example :
    Sorted (list_refresh_health false rows).1
    × ((a b : HealthRow) → row_less a b ≡ text_less (row_key a) (row_key b))
list_refresh_health-Sorted_example = list_refresh_health-Sorted false rows

worst_first :
    map (λ r. r.slug) (list_refresh_health false rows).1 ≡ codes "c" ∷ codes "b" ∷ codes "a" ∷ []
unfolding list_refresh_health
worst_first = refl
