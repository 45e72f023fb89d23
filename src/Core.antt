-- ===== src/Core.antt =====
-- Core utilities (include/ccmcp/core, src/core).
pub mod Result
pub mod Double
pub mod Normalization
pub mod Words
pub mod Hashing
pub mod Sha256
