-- ===== src/Fmt.antt =====
-- src/fmt: text, as the library reads it.
pub mod Chars
pub mod Pl
pub mod Itoa
pub mod Regex
pub mod Trim
