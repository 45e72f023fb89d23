-- ===== src/Matching.antt =====
-- The matcher (include/ccmcp/matching, src/matching/matcher.cpp).
pub mod Tokens
pub mod Candidates
pub mod Evaluate
