-- ===== src/Versions/Effects.antt =====
-- What the operations of internal/versions bring about.
pub mod Access
pub mod Retry
pub mod Deploys
pub mod Again
pub mod Reviews
pub mod Approvals
pub mod Slugs
