-- ===== src/App/Validation.antt =====
-- `run_validation_pipeline` (src/app/app_service.cpp).
pub mod Trail
use career_coordination_mcp.Prelude.{
  Str, lit, Option, none, some, List, [], ◌∷◌, ◌++◌, length, to_string,
}
use career_coordination_mcp.Core.Double.{Double}
use career_coordination_mcp.Core.Sha256.{sha256_hex}
use career_coordination_mcp.Domain.MatchReport.{MatchReport}
use career_coordination_mcp.Storage.Audit.{EventJson}
use career_coordination_mcp.Constitution.Artifact.{
  match_report_view, ArtifactEnvelope, ValidationContext, ValidationStatus, accepted, needs_review,
  rejected, blocked, overridden, ValidationReport, OverrideRequest,
}
use career_coordination_mcp.Constitution.Engine.{validate}
use career_coordination_mcp.Constitution.Rules.{make_default_constitution}
use career_coordination_mcp.App.Services.{IdGenerator, Clock, Services, emit}

-- `status_str`; there is no case for `kNeedsReview`, which falls to the default
abbrev pub status_str : ValidationStatus → Str
status_str accepted = lit "accepted"
status_str rejected = lit "rejected"
status_str blocked = lit "blocked"
status_str overridden = lit "overridden"
status_str _ = lit "unknown"

abbrev pub report_artifact_id : Str → Str
report_artifact_id opportunity_id = lit "match-report-" ++ opportunity_id

abbrev pub report_context : Str → ValidationContext
report_context trace_id = record {
  constitution_id = lit "default";
  constitution_version = lit "0.1.0";
  ground_truth_refs = [];
  trace_id = trace_id;
}

abbrev pub report_envelope : {Num : Type 0} → MatchReport Num → ArtifactEnvelope Num
report_envelope report = record {
  artifact_id = report_artifact_id report.opportunity_id;
  content = [];
  source_refs = [];
  artifact = some (match_report_view report);
}

-- The override, bound to the artifact
abbrev pub bind_override : Str → Option OverrideRequest → Option OverrideRequest
bind_override artifact_id none = none
bind_override artifact_id (some override) =
    some
      (record override { binding_hash_alg = lit "sha256"; payload_hash = sha256_hex artifact_id })

abbrev completed_payload : ValidationReport → Str
completed_payload report =
    lit "{\"status\":\""
    ++ status_str report.status
    ++ lit "\",\"finding_count\":"
    ++ to_string (length report.findings)
    ++ lit "}"

abbrev override_payload : OverrideRequest → Str
override_payload override =
    lit "{\"rule_id\":\""
    ++ override.rule_id
    ++ lit "\",\"operator_id\":\""
    ++ override.operator_id
    ++ lit "\",\"reason\":\""
    ++ override.reason
    ++ lit "\"}"

module _ (d : Double) (dump : EventJson → Str) {Ids Time : Type 0} (id_gen : IdGenerator Ids)
    (clock : Clock Time) where
  open d use {Num}

  -- The `ConstitutionOverrideApplied` event; the code reads the override only under this status
  unfoldable pub emit_override :
      Services Ids Time → Str → Option OverrideRequest → ValidationStatus → Services Ids Time
  unfolding emit
  emit_override services trace_id (some override) overridden =
      emit dump id_gen clock services trace_id (lit "ConstitutionOverrideApplied")
        (override_payload override) []
  emit_override services trace_id _ _ = services

  unfoldable pub run_validation_pipeline :
      MatchReport Num
      → Services Ids Time
      → Str
      → Option OverrideRequest
      → ValidationReport × Services Ids Time
  unfolding validate make_default_constitution emit emit_override
  run_validation_pipeline report services trace_id override =
      let bound = bind_override (report_artifact_id report.opportunity_id) override in
      let validation_report =
        validate (make_default_constitution d) (report_envelope report) (report_context trace_id)
          bound in
      let logged =
        emit dump id_gen clock services trace_id (lit "ValidationCompleted")
          (completed_payload validation_report) (report.opportunity_id ∷ []) in
      (validation_report, emit_override logged trace_id bound validation_report.status)
