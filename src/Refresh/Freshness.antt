-- ===== src/Refresh/Freshness.antt =====
-- internal/versions/freshness.go: the freshness block of a page. A time is a whole number of
-- milliseconds from the year 1, and the zero time is `none`.
use pages.Common.{
  Bool, Option, Text, [], codes, false, if◌then◌else◌, ltb, none, not, some, true, ℕ, ◌&&◌, ◌+◌,
  ◌-◌, ◌/◌, ◌||◌, ◌∷◌,
}

abbrev pub Stamp : Type 0
Stamp = Option ℕ

-- `IsZero`
abbrev pub is_zero : Stamp → Bool
is_zero none = true
is_zero (some t) = false

-- `t.After(u)`, where the zero time is before any other.
abbrev pub after : Stamp → Stamp → Bool
after none u = false
after (some t) none = true
after (some t) (some u) = ltb u t

-- 1970-01-01
abbrev pub epoch : ℕ
epoch = 62135596800000

-- `noSourceYet`
unfoldable pub no_source_yet : Stamp → Bool
no_source_yet none = false
no_source_yet (some t) = ltb t (epoch + 1000)

-- `sourceStamp`
unfoldable pub source_stamp : Stamp → Stamp
unfolding no_source_yet
source_stamp t = if no_source_yet t then none else t

abbrev pub day_ms : ℕ
day_ms = 86400000

-- `daysSince`: a time that is still to come is no days ago.
unfoldable pub days_since : Stamp → ℕ → Option ℕ
days_since none now = none
days_since (some t) now = some ((now - t) / day_ms)

-- `strPtr`
unfoldable pub str_ptr : Text → Option Text
str_ptr [] = none
str_ptr (c ∷ cs) = some (c ∷ cs)

-- `FreshnessInput`
pub record FreshnessInput : Type 0 where
  pub source_as_of : Stamp
  pub refreshed_at : Stamp
  pub last_check_at : Stamp
  pub last_check_outcome : Text
  pub last_check_detail : Text
  pub last_check_source_as_of : Stamp

-- `Freshness`
pub record Freshness : Type 0 where
  pub check_at : Stamp
  pub latest_outcome : Option Text
  pub latest_detail : Option Text
  pub latest_source_as_of : Stamp
  pub source : Stamp
  pub refreshed : Stamp
  pub checked_at : Stamp
  pub check_outcome : Option Text
  pub check_detail : Option Text
  pub check_source_as_of : Stamp
  pub days_since_source : Option ℕ
  pub days_since_refresh : Option ℕ
  pub days_since_check : Option ℕ

-- The time of the last look: the later of the check and the refresh.
unfoldable pub checked : Stamp → Stamp → Stamp
checked last_check refreshed =
    if not (is_zero last_check) && not (is_zero refreshed)
    then (if not (after last_check refreshed) then refreshed else last_check)
    else (if is_zero last_check then refreshed else last_check)

-- `refreshIsLatest`
unfoldable pub refresh_is_latest : Stamp → Stamp → Bool
refresh_is_latest last_check refreshed =
    not (is_zero refreshed) && (is_zero last_check || after refreshed last_check)

-- `FreshnessOf`
unfoldable pub freshness_of : FreshnessInput → ℕ → Option Freshness
unfolding source_stamp days_since str_ptr checked refresh_is_latest
freshness_of input now =
    let source = source_stamp input.source_as_of in
    let refreshed = input.refreshed_at in
    let last_check = input.last_check_at in
    let looked = checked last_check refreshed in
    let latest = refresh_is_latest last_check refreshed in
    let check_source = source_stamp input.last_check_source_as_of in
    if is_zero source && is_zero refreshed && is_zero last_check
    then none
    else some (record {
      check_at = last_check;
      latest_outcome = if latest then some (codes "updated") else str_ptr input.last_check_outcome;
      latest_detail = if latest then none else str_ptr input.last_check_detail;
      latest_source_as_of = if latest then source else check_source;
      source = source;
      refreshed = refreshed;
      checked_at = looked;
      check_outcome = str_ptr input.last_check_outcome;
      check_detail = str_ptr input.last_check_detail;
      check_source_as_of = check_source;
      days_since_source = days_since source now;
      days_since_refresh = days_since refreshed now;
      days_since_check = days_since looked now;
    })
