-- ===== src/Constitution.antt =====
-- The constitutional validation engine (include/ccmcp/constitution, src/constitution).
pub mod Artifact
pub mod Engine
pub mod Rules
pub mod TokenRules
