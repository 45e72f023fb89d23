-- ===== src/Interaction.antt =====
-- Coordination of interaction transitions (include/ccmcp/interaction, src/interaction).
pub mod Coordinator
pub mod Redis
