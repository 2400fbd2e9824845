-- ===== src/Strings.antt =====
-- What the program uses of the standard library's package strings.
pub mod Trim
pub mod Trimmed
pub mod Lower
