-- ===== src/Ulib.antt =====
-- printf.c, ulib.c and grep.c: numbers as text, and the pattern matcher.
pub mod Number
pub mod Decimal
pub mod Match
pub mod Items
pub mod Regex
mod Tests
