-- ===== src/Jsonv.antt =====
-- internal/jsonv/jsonv.go: a JSON value model with the semantics of JavaScript. A string is the list of
-- its bytes.
pub mod Utf8
pub mod Entries
pub mod Numbers
pub mod Values
pub mod Texts
pub mod Parse
pub mod Print
pub mod Escapes
pub mod Quoting
pub mod Numerals
pub mod Reading
pub mod Layout
pub mod Literals
pub mod Orders
pub mod Mapped
pub mod Scalars
pub mod Loops
pub mod Brackets
pub mod Canon
pub mod RoundTrip
pub mod Stable
pub mod Object
pub mod Refined
pub mod Objects
pub mod Changes
pub mod Progress
pub mod Pieces
pub mod Termination
pub mod Decoding
pub mod Plain
pub mod Written
pub mod Output
pub mod Parsed
pub mod Model
