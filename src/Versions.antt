-- ===== src/Versions.antt =====
-- internal/versions: pages, their immutable versions, and the pointer that says which one is live.
pub mod Args
pub mod Store
pub mod Guards
pub mod Prepare
pub mod Deploy
pub mod Review
pub mod Settings
pub mod Lifecycle
pub mod Step
pub mod Spec
pub mod Invariant
pub mod Safety
pub mod Effects
