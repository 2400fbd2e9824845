-- ===== src/Strconv.antt =====
-- What the program uses of the standard library's packages strconv and time to read and write numbers.
pub mod Codes
pub mod Integers
pub mod Booleans
pub mod Decimals
pub mod Durations
