-- ===== src/Ingest/Resume.antt =====
-- An ingested resume (include/ccmcp/ingest/ingested_resume.h, resume_meta.h).
use career_coordination_mcp.Prelude.{Str, Option}

pub record ResumeMeta : Type 0 where
  pub source_path : Option Str
  pub source_hash : Str
  pub extraction_method : Str
  pub extracted_at : Option Str
  pub ingestion_version : Str

pub record IngestedResume : Type 0 where
  pub resume_id : Str
  pub resume_md : Str
  pub resume_hash : Str
  pub meta : ResumeMeta
  pub created_at : Option Str
