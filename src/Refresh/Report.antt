-- ===== src/Refresh/Report.antt =====
-- internal/versions/refreshhealth.go: the report on every page, worst first. A page is the fields of
-- the report's row that its order and counts read, beside its block.
use pages.Common.{
  Bool, List, Text, [], false, if◌then◌else◌, ltb, none, not, some, true, ℕ, ◌&&◌, ◌+◌, ◌==◌, ◌||◌,
  ◌∷◌,
}
use pages.Refresh.Freshness.{Stamp, after, is_zero}
use pages.Refresh.Health.{
  Health, blocked, coverage_gap, healthy, needs_attention, overdue, source_stale, unscheduled,
}

-- `HealthCounts`
pub record HealthCounts : Type 0 where
  pub blocked_count : ℕ
  pub overdue_count : ℕ
  pub source_stale_count : ℕ
  pub coverage_gap_count : ℕ
  pub ok_count : ℕ
  pub unscheduled_count : ℕ
  pub unscheduled_stale_count : ℕ

-- `RefreshHealthRow`
pub record HealthRow : Type 0 where
  pub slug : Text
  pub row_health : Health
  pub row_since : Stamp
  pub row_source : Stamp
  pub hinted : Bool

abbrev pub no_counts : HealthCounts
no_counts = record {
  blocked_count = 0;
  overdue_count = 0;
  source_stale_count = 0;
  coverage_gap_count = 0;
  ok_count = 0;
  unscheduled_count = 0;
  unscheduled_stale_count = 0;
}

-- The switch of `add`.
unfoldable pub add_health : HealthCounts → Health → HealthCounts
add_health c blocked = record c { blocked_count = c.blocked_count + 1 }
add_health c overdue = record c { overdue_count = c.overdue_count + 1 }
add_health c source_stale = record c { source_stale_count = c.source_stale_count + 1 }
add_health c coverage_gap = record c { coverage_gap_count = c.coverage_gap_count + 1 }
add_health c healthy = record c { ok_count = c.ok_count + 1 }
add_health c unscheduled = record c { unscheduled_count = c.unscheduled_count + 1 }

-- `add`
unfoldable pub add_row : HealthCounts → HealthRow → HealthCounts
unfolding add_health
add_row c r =
    add_health
      (if r.hinted then record c { unscheduled_stale_count = c.unscheduled_stale_count + 1 } else c)
      r.row_health

-- `healthRank`
abbrev pub health_rank : Health → ℕ
health_rank blocked = 0
health_rank overdue = 1
health_rank source_stale = 2
health_rank coverage_gap = 3
health_rank healthy = 4
health_rank unscheduled = 5

-- `a < b`, of slugs.
unfoldable pub text_less : Text → Text → Bool
text_less a [] = false
text_less [] (y ∷ b) = true
text_less (x ∷ a) (y ∷ b) = if x == y then text_less a b else ltb x y

-- `t.Equal(u)`
abbrev pub same_stamp : Stamp → Stamp → Bool
same_stamp none none = true
same_stamp (some t) (some u) = t == u
same_stamp _ _ = false

abbrev pub same_bool : Bool → Bool → Bool
same_bool true b = b
same_bool false b = not b

-- The comparison of the sort.
unfoldable pub row_less : HealthRow → HealthRow → Bool
unfolding text_less
row_less a b =
    if not (health_rank a.row_health == health_rank b.row_health)
    then ltb (health_rank a.row_health) (health_rank b.row_health)
    else (if not (same_bool a.hinted b.hinted)
        then a.hinted
        else (if a.hinted && not (same_stamp a.row_source b.row_source)
            then after b.row_source a.row_source
            else (if not (same_stamp a.row_since b.row_since)
                then (if is_zero a.row_since || is_zero b.row_since
                    then is_zero b.row_since
                    else after b.row_since a.row_since)
                else text_less a.slug b.slug)))

-- `sort.SliceStable`, by insertion from the end.
unfoldable pub insert_row : HealthRow → List HealthRow → List HealthRow
unfolding row_less
insert_row r [] = r ∷ []
insert_row r (x ∷ xs) = let rest = insert_row r xs in if row_less x r then x ∷ rest else r ∷ x ∷ xs

unfoldable pub sort_rows : List HealthRow → List HealthRow
unfolding insert_row
sort_rows [] = []
sort_rows (r ∷ rs) = insert_row r (sort_rows rs)

-- The loop of `ListRefreshHealth` over the pages.
unfoldable pub collect : Bool → HealthCounts → List HealthRow → HealthCounts × List HealthRow
unfolding add_row
collect only_attention c [] = (c, [])
collect only_attention c (r ∷ rs) =
    let (counts, rows) = collect only_attention (add_row c r) rs in
    if only_attention && not (needs_attention r.row_health)
    then (counts, rows)
    else (counts, r ∷ rows)

-- `ListRefreshHealth`
unfoldable pub list_refresh_health : Bool → List HealthRow → HealthCounts × List HealthRow
unfolding collect sort_rows
list_refresh_health only_attention pages =
    let (counts, rows) = collect only_attention no_counts pages in (counts, sort_rows rows)
