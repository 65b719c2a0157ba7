-- ===== src/Gate.antt =====
-- internal/passwordgate: the delay of failed attempts and the turns of attempts.
pub mod Delay
pub mod Turns
pub mod Exclusion
