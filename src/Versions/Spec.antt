-- ===== src/Versions/Spec.antt =====
-- What the state machine of internal/versions may do: the statements that a transaction may run,
-- each with the condition under which it may run it. Operations are shown to run no other.
pub mod Invert
pub mod Rules
pub mod Review
pub mod Deploys
pub mod Settings
pub mod Lifecycle
pub mod Refine
