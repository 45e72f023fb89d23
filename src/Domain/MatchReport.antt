-- ===== src/Domain/MatchReport.antt =====
-- Match reports (include/ccmcp/domain/match_report.h), over the type of scores.
use career_coordination_mcp.Prelude.{ℕ, Str, Bool, Option, List}

pub record ScoreBreakdown (Num : Type 0) : Type 0 where
  pub lexical : Num
  pub semantic : Num
  pub bonus : Num
  pub final_score : Num

pub record RetrievalStats : Type 0 where
  pub lexical_candidates : ℕ
  pub embedding_candidates : ℕ
  pub merged_candidates : ℕ

pub record RequirementMatch (Num : Type 0) : Type 0 where
  pub requirement_text : Str
  pub matched : Bool
  pub best_score : Num
  pub contributing_atom_id : Option Str
  pub evidence_tokens : List Str

pub record MatchReport (Num : Type 0) : Type 0 where
  pub opportunity_id : Str
  pub strategy : Str
  pub overall_score : Num
  pub requirement_matches : List (RequirementMatch Num)
  pub missing_requirements : List Str
  pub retrieval_stats : RetrievalStats
  pub matched_atoms : List Str
  pub breakdown : ScoreBreakdown Num
