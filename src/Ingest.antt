-- ===== src/Ingest.antt =====
-- Ingestion of resumes (include/ccmcp/ingest, src/ingest).
pub mod Resume
pub mod Hygiene
pub mod Pdf
pub mod Ingestor
pub mod ResumeStore
