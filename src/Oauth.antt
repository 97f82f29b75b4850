-- ===== src/Oauth.antt =====
-- oauth.c
pub mod Escape
pub mod Base64
mod Tests
pub mod Request
pub mod Sign
pub mod Sent
pub mod Signed
mod SignTests
pub mod Extra
pub mod Response
