-- ===== src/Refresh/Order.antt =====
-- internal/versions/refreshhealth.go: the counts and the order of the report.
use pages.Common.{
  Bool, Bool-cases, List, [], ap, arith, false, inl, inr, length, not, refl, suc, true, ℕ, ◌&&◌,
  ◌+◌, ◌∙◌, ◌∷◌, ◌≡◌,
}
use pages.Refresh.Health.{
  Health, blocked, coverage_gap, healthy, needs_attention, overdue, source_stale, unscheduled,
}
use pages.Refresh.Report.{
  HealthCounts, HealthRow, add_health, add_row, collect, insert_row, list_refresh_health, no_counts,
  row_less, sort_rows,
}

-- The pages of a report, one by one.
abbrev pub total : HealthCounts → ℕ
total c =
    c.blocked_count + c.overdue_count + c.source_stale_count + c.coverage_gap_count + c.ok_count
    + c.unscheduled_count

abbrev pub attention : HealthCounts → ℕ
attention c = c.blocked_count + c.overdue_count + c.source_stale_count + c.coverage_gap_count

abbrev one_if : Bool → ℕ
one_if true = 1
one_if false = 0

add_health-total : (c : HealthCounts) (h : Health) → total (add_health c h) ≡ total c + 1
unfolding add_health
add_health-total c blocked = omega arith
add_health-total c overdue = omega arith
add_health-total c source_stale = omega arith
add_health-total c coverage_gap = omega arith
add_health-total c healthy = omega arith
add_health-total c unscheduled = omega arith

add_health-attention :
    (c : HealthCounts) (h : Health)
    → attention (add_health c h) ≡ attention c + one_if (needs_attention h)
unfolding add_health
add_health-attention c blocked = omega arith
add_health-attention c overdue = omega arith
add_health-attention c source_stale = omega arith
add_health-attention c coverage_gap = omega arith
add_health-attention c healthy = omega arith
add_health-attention c unscheduled = omega arith

add_row-counts :
    (c : HealthCounts) (r : HealthRow)
    → (total (add_row c r) ≡ total c + 1)
      × (attention (add_row c r) ≡ attention c + one_if (needs_attention r.row_health))
unfolding add_row
add_row-counts c r = elim (Bool-cases r.hinted) [
  | inl e ↦
      let d = record c { unscheduled_stale_count = c.unscheduled_stale_count + 1 } in
      rw e (add_health-total d r.row_health, add_health-attention d r.row_health)
  | inr e ↦ rw e (add_health-total c r.row_health, add_health-attention c r.row_health)
]

collect-total :
    (only : Bool) (c : HealthCounts) (pages : List HealthRow)
    → total (collect only c pages).0 ≡ total c + length pages
unfolding collect
collect-total only c [] = omega arith
collect-total only c (r ∷ rs) =
    let one = (add_row-counts c r).0 in
    let more = collect-total only (add_row c r) rs in
    elim (Bool-cases (only && not (needs_attention r.row_health))) [
      | inl e ↦ rw e (omega arith)
      | inr e ↦ rw e (omega arith)
    ]

-- The rows that are kept when only attention is asked for.
collect-attention :
    (c : HealthCounts) (pages : List HealthRow)
    → attention (collect true c pages).0 ≡ attention c + length (collect true c pages).1
unfolding collect
collect-attention c [] = omega arith
collect-attention c (r ∷ rs) =
    let one = (add_row-counts c r).1 in
    let more = collect-attention (add_row c r) rs in
    elim (Bool-cases (needs_attention r.row_health)) [
      | inl e ↦ let n : one_if (needs_attention r.row_health) ≡ 1 = rw e refl in rw e (omega arith)
      | inr e ↦ let n : one_if (needs_attention r.row_health) ≡ 0 = rw e refl in rw e (omega arith)
    ]

collect-all : (c : HealthCounts) (pages : List HealthRow) → (collect false c pages).1 ≡ pages
unfolding collect
collect-all c [] = refl
collect-all c (r ∷ rs) = ap (r ∷◌) (collect-all (add_row c r) rs)

insert_row-length :
    (r : HealthRow) (xs : List HealthRow) → length (insert_row r xs) ≡ suc (length xs)
unfolding insert_row
insert_row-length r [] = refl
insert_row-length r (x ∷ xs) = elim (Bool-cases (row_less x r)) [
  | inl e ↦ rw e (ap suc (insert_row-length r xs))
  | inr e ↦ rw e refl
]

sort_rows-length : (xs : List HealthRow) → length (sort_rows xs) ≡ length xs
unfolding sort_rows
sort_rows-length [] = refl
sort_rows-length (x ∷ xs) = insert_row-length x (sort_rows xs) ∙ ap suc (sort_rows-length xs)

-- Every page of the report is counted under one state, and the rows of the report on the pages that
-- need attention are as many as the counts of the four such states say. Without that restriction
-- every page has a row.
pub list_refresh_health-counts :
    (pages : List HealthRow)
    → (total (list_refresh_health true pages).0 ≡ length pages)
      × (attention (list_refresh_health true pages).0 ≡ length (list_refresh_health true pages).1)
      × (total (list_refresh_health false pages).0 ≡ length pages)
      × (length (list_refresh_health false pages).1 ≡ length pages)
unfolding list_refresh_health
list_refresh_health-counts pages =
    let whole = collect-total true no_counts pages in
    let each = collect-total false no_counts pages in
    let some_rows = collect-attention no_counts pages in
    let rows = sort_rows-length (collect true no_counts pages).1 in
    let all_rows = sort_rows-length (collect false no_counts pages).1 in
    (
      omega (arith, whole),
      omega (arith, some_rows, rows),
      omega (arith, each),
      all_rows ∙ ap length (collect-all no_counts pages),
    )
