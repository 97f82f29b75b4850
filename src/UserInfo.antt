-- ===== src/UserInfo.antt =====
-- pt-user-info.c
pub mod Offset
pub mod Table
pub mod Types
pub mod Userpic
pub mod Arrives
mod Tests
