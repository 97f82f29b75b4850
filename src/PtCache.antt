-- ===== src/PtCache.antt =====
-- pt-cache.c
pub mod Nodes
pub mod State
pub mod Invariant
pub mod Index
pub mod Toggle
pub mod Drop
pub mod Listed
pub mod Unkeyed
pub mod Dispose
pub mod Emptied
pub mod Disposed
pub mod Callback
pub mod Batches
pub mod Replace
pub mod Flush
pub mod Scan
pub mod Visit
pub mod Evict
pub mod Full
pub mod Put
pub mod Stored
pub mod Insert
pub mod Overwrite
pub mod Props
pub mod Reach
pub mod Fresh
pub mod Example
mod Tests
