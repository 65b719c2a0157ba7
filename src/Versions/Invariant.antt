-- ===== src/Versions/Invariant.antt =====
-- The invariant of the tables, and that every operation keeps it.
pub mod Slugs
pub mod Writes
pub mod Steps
