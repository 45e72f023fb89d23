-- ===== src/App.antt =====
-- The application service (include/ccmcp/app/app_service.h, src/app/app_service.cpp).
pub mod Services
pub mod Validation
pub mod Transition
pub mod Match
pub mod Decisions
pub mod Ingest
pub mod IndexBuild
