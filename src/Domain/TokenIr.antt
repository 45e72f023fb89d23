-- ===== src/Domain/TokenIr.antt =====
-- The token IR of a resume (include/ccmcp/domain/resume_token_ir.h).
use career_coordination_mcp.Prelude.{ℕ, Str, Option, List}
use career_coordination_mcp.Prelude.StringMap.{StringMap}

pub data TokenizerType : Type 0 where
  deterministic_lexical inference_assisted : TokenizerType

pub record TokenizerMetadata : Type 0 where
  pub type : TokenizerType
  pub model_id : Option Str
  pub prompt_version : Option Str

pub record TokenSpan : Type 0 where
  pub token : Str
  pub start_line : ℕ
  pub end_line : ℕ

pub record ResumeTokenIr : Type 0 where
  pub schema_version : Str
  pub source_hash : Str
  pub tokenizer : TokenizerMetadata
  pub tokens : StringMap (List Str)
  pub spans : List TokenSpan
