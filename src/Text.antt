-- ===== src/Text.antt =====
-- Rust's `str` and `String` as lists of code points, and what the program uses of them.
pub mod Basic
pub mod Ascii
pub mod Decimal
pub mod Splitting
pub mod Utf8
pub mod Prefixes
pub mod Containing
