-- ===== src/Examples.antt =====
-- Runs of the definitions on concrete values, and the theorems applied to them.
pub mod Numbers
pub mod KeySpace
pub mod Outreach
pub mod Clients
pub mod Trail
pub mod Verdicts
pub mod Matches
pub mod Tokens
pub mod Decisions
pub mod Pipelines
pub mod Builds
pub mod Resumes
pub mod Recorded
