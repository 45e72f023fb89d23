-- ===== src/Storage.antt =====
-- Stores (include/ccmcp/storage, src/storage).
pub mod Audit
pub mod Decisions
pub mod Repositories
