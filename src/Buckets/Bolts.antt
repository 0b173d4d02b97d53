-- ===== src/Buckets/Bolts.antt =====
-- done_tool/buckets/bolts: the bucket store on the bbolt database.
pub mod Cursor
pub mod Bucket
pub mod Store
