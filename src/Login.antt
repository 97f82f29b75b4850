-- ===== src/Login.antt =====
-- login.c, and the request of a resource in main.c
pub mod Messages
pub mod Flow
pub mod Posted
pub mod Account
pub mod Example
mod Tests
