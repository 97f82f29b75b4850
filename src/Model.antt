-- ===== src/Model.antt =====
-- model.c
pub mod Updates
pub mod Ordered
pub mod Added
pub mod Rows
pub mod Shown
pub mod Sorted
pub mod InOrder
pub mod View
pub mod Picture
pub mod Sorts
mod PictureTests
mod Tests
