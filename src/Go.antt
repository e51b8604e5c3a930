-- ===== src/Go.antt =====
-- What the code uses of Go's own maps and standard library.
pub mod Maps
pub mod Strings
pub mod Strconv
pub mod Sort
pub mod Members
