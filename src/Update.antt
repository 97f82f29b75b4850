-- ===== src/Update.antt =====
-- pt-update.c, and the parsing of a list of updates in main.c
pub mod Offset
pub mod Table
pub mod Source
pub mod Parse
pub mod Parsed
pub mod Tags
pub mod Markup
pub mod Example
mod Tests
