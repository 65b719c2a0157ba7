-- ===== src/Cron.antt =====
-- internal/cron/cron.go: cron expressions and the fires of a schedule.
pub mod Schedule
pub mod Search
pub mod Fires
pub mod Later
pub mod Gaps
pub mod Parse
pub mod Values
pub mod Items
pub mod Fields
pub mod Bounds
pub mod Lists
