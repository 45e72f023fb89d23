-- ===== src/Domain.antt =====
-- Domain types and rules (include/ccmcp/domain, src/domain).
pub mod Interaction
pub mod Atom
pub mod Opportunity
pub mod MatchReport
pub mod TokenIr
