-- ===== src/Go.antt =====
-- What the controllers use of Go's standard library.
pub mod Strconv
pub mod Word
