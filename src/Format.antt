-- ===== src/Format.antt =====
-- format.c
pub mod Chars
pub mod Dates
pub mod Printed
pub mod Fields
pub mod Json
pub mod Kept
pub mod Sqlite
pub mod Store
pub mod Unbound
mod Tests
