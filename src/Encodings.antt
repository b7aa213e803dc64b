-- ===== src/Encodings.antt =====
-- The encodings of Go's standard library that the core packages use: `unicode/utf8`,
-- `encoding/hex`, and the integers of Go.
pub mod Utf8
pub mod Boundaries
pub mod Hex
pub mod Ints
