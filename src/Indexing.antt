-- ===== src/Indexing.antt =====
-- Index runs and the build of the vector index (include/ccmcp/indexing, src/indexing).
pub mod Run
pub mod RunStore
pub mod Build
