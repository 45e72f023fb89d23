-- ===== src/Constitution/Artifact.antt =====
-- Findings, typed artifacts, their envelope, rules, constitutions and reports
-- (include/ccmcp/constitution: finding.h, artifact_view.h, match_report_view.h,
-- token_ir_artifact_view.h, rule.h, constitutional_rule.h, constitution.h, validation_report.h,
-- override_request.h).
use career_coordination_mcp.Prelude.{Str, Option, none, some, List}
use career_coordination_mcp.Domain.MatchReport.{MatchReport}
use career_coordination_mcp.Domain.TokenIr.{ResumeTokenIr}

pub data FindingSeverity : Type 0 where
  pass warn fail block : FindingSeverity

pub record Finding : Type 0 where
  pub rule_id : Str
  pub severity : FindingSeverity
  pub message : Str
  pub evidence_refs : List Str

pub data ArtifactType : Type 0 where
  unknown match_report resume_token_ir : ArtifactType

-- `ArtifactView` and its two subclasses
pub data ArtifactView (Num : Type 0) : Type 0 where
  match_report_view : MatchReport Num → ArtifactView Num
  token_ir_view : ResumeTokenIr → Str → Str → ArtifactView Num

-- The override of `ArtifactView::type` in each subclass
unfoldable pub view_type : {Num : Type 0} → ArtifactView Num → ArtifactType
view_type (match_report_view report) = match_report
view_type (token_ir_view ir hash text) = resume_token_ir

-- `dynamic_cast<const MatchReportView*>`
unfoldable pub as_match_report : {Num : Type 0} → ArtifactView Num → Option (MatchReport Num)
as_match_report (match_report_view report) = some report
as_match_report (token_ir_view ir hash text) = none

-- `dynamic_cast<const TokenIRArtifactView*>`: the token IR, the hash and the text of the resume
unfoldable pub as_token_ir : {Num : Type 0} → ArtifactView Num → Option (ResumeTokenIr × Str × Str)
as_token_ir (match_report_view report) = none
as_token_ir (token_ir_view ir hash text) = some (ir, hash, text)

pub record ArtifactEnvelope (Num : Type 0) : Type 0 where
  pub artifact_id : Str
  pub content : Str
  pub source_refs : List Str
  pub artifact : Option (ArtifactView Num)

-- `ArtifactEnvelope::artifact_type`
unfoldable pub artifact_type : {Num : Type 0} → ArtifactEnvelope Num → ArtifactType
unfolding view_type
artifact_type envelope = elim (envelope.artifact) [ none ↦ unknown | some view ↦ view_type view ]

pub record ValidationContext : Type 0 where
  pub constitution_id : Str
  pub constitution_version : Str
  pub ground_truth_refs : List Str
  pub trace_id : Str

-- A rule: its identifier and its `Validate`
pub record ConstitutionalRule (Num : Type 0) : Type 0 where
  pub rule_id : Str
  pub validate : ArtifactEnvelope Num → ValidationContext → List Finding

-- `none` is a null pointer in the vector of rules
pub record Constitution (Num : Type 0) : Type 0 where
  pub constitution_id : Str
  pub version : Str
  pub rules : List (Option (ConstitutionalRule Num))

pub data ValidationStatus : Type 0 where
  accepted needs_review rejected blocked overridden : ValidationStatus

pub record ValidationReport : Type 0 where
  pub report_id : Str
  pub trace_id : Str
  pub artifact_id : Str
  pub constitution_id : Str
  pub constitution_version : Str
  pub status : ValidationStatus
  pub findings : List Finding

pub record OverrideRequest : Type 0 where
  pub binding_hash_alg : Str
  pub operator_id : Str
  pub payload_hash : Str
  pub reason : Str
  pub rule_id : Str
