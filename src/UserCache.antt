-- ===== src/UserCache.antt =====
-- usercache.c
pub mod Hash
pub mod Database
pub mod Fetch
pub mod Flush
pub mod Atomic
pub mod Users
pub mod Again
pub mod Read
pub mod Open
pub mod Close
pub mod Tests
