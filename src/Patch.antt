-- ===== src/Patch.antt =====
-- internal/pagepatch: literal, counted edits of a document.
pub mod Strings
pub mod Apply
pub mod Pieces
pub mod Bounds
pub mod Edits
