-- ===== src/Versions/Safety.antt =====
-- What no history of operations does to a page or a version.
pub mod Rows
pub mod Agents
pub mod Audit
pub mod Logged
pub mod Trail
pub mod Deployed
pub mod Accounted
pub mod History
