-- ===== src/Go.antt =====
-- What the program uses of Go's package strconv and strings, on bytes.
pub mod Strings
pub mod Strconv
pub mod Unicode
