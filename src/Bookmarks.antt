-- ===== src/Bookmarks.antt =====
-- The shared bookmarks (main/bookmarks.c).
pub mod Text
pub mod Store
mod Tests
