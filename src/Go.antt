-- ===== src/Go.antt =====
-- What the program uses of Go's standard library: `strings`, `strconv` and `time`. A Go text is the sequence
-- of its code points (a text that is no valid UTF-8 is outside the model).
pub mod Strings
pub mod Time
pub mod Strconv
