-- ===== src/StateFile.antt =====
-- state.c
pub mod KeyFile
pub mod State
pub mod RoundTrip
pub mod Example
mod Tests
