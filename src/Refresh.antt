-- ===== src/Refresh.antt =====
-- internal/versions/freshness.go and refreshhealth.go: what a page says of its own refreshes.
pub mod Freshness
pub mod Health
pub mod Verdict
pub mod Fires
pub mod Rules
pub mod Precedence
pub mod Alarms
pub mod Report
pub mod Order
pub mod Sorting
