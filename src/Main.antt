-- ===== src/Main.antt =====
-- main.c
pub mod Fetch
pub mod Fetched
pub mod Start
pub mod Again
mod FetchTests
mod Tests
