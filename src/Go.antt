-- ===== src/Go.antt =====
-- What the program uses of Go's standard library: texts, decimal numbers and file paths. A Go
-- string is a `String` of characters; the program's own strings are valid UTF-8.
pub mod Strings
pub mod Decimal
pub mod Scan
pub mod FilePath
pub mod Files
