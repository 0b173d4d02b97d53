-- ===== src/Things.antt =====
-- done_tool/things: the values of a Thing's properties (Properties) and the documents that describe
-- Things (Documents).
pub mod Properties
pub mod Documents
