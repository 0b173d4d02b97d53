-- ===== src/Buckets.antt =====
-- The bucket stores, done_tool/buckets.
pub mod Api
pub mod Stores
pub mod Bolts
pub mod CursorCache
