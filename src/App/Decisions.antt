-- ===== src/App/Decisions.antt =====
-- Decision records of matches (src/app/app_service.cpp: `build_decision_record`,
-- `record_match_decision`, `fetch_decision`, `list_decisions_by_trace`).
pub mod Summary
pub mod Recorded
use career_coordination_mcp.Prelude.{
  ℕ, ◌+◌, Str, lit, Bool, true, false, Option, none, some, List, [], ◌∷◌, ◌++◌, ◌||◌, map, length,
  if◌then◌else◌,
}
use career_coordination_mcp.Prelude.StringSet.{insert}
use career_coordination_mcp.Domain.MatchReport.{RequirementMatch}
use career_coordination_mcp.Constitution.Artifact.{
  fail, block, warn, Finding, ValidationStatus, accepted, needs_review, rejected, blocked,
  overridden, ValidationReport,
}
use career_coordination_mcp.Constitution.Engine.{severity_is}
use career_coordination_mcp.Storage.Audit.{EventJson, append}
use career_coordination_mcp.Storage.Decisions.{
  RequirementDecision, ValidationSummary, DecisionRecord, upsert, get, list_by_trace,
}
use career_coordination_mcp.App.Services.{IdGenerator, Clock, Services}
use career_coordination_mcp.App.Validation.{report_artifact_id}
use career_coordination_mcp.App.Match.{MatchPipelineResponse}

-- `vsummary.status`
unfoldable pub summary_status : ValidationStatus → Str
summary_status accepted = lit "accepted"
summary_status rejected = lit "rejected"
summary_status blocked = lit "blocked"
summary_status needs_review = lit "needs_review"
summary_status overridden = lit "overridden"

abbrev pub is_fail_or_block : Finding → Bool
is_fail_or_block f = severity_is fail f || severity_is block f

abbrev pub is_warn : Finding → Bool
is_warn f = severity_is warn f

-- The loop over the findings: the two counts and `top_rule_id_set`
unfoldable pub tally : ℕ → ℕ → List Str → List Finding → ℕ × ℕ × List Str
unfolding insert
tally fails warns rule_ids [] = (fails, warns, rule_ids)
tally fails warns rule_ids (f ∷ findings) =
    if is_fail_or_block f || is_warn f
    then tally (fails + (if is_fail_or_block f then 1 else 0))
        (warns + (if is_warn f then 1 else 0)) (insert rule_ids f.rule_id) findings
    else tally fails warns rule_ids findings

unfoldable pub summarize : ValidationReport → ValidationSummary
unfolding summary_status tally
summarize report =
    let (fails, warns, rule_ids) = tally 0 0 [] report.findings in
    record {
      status = summary_status report.status;
      finding_count = length report.findings;
      fail_count = fails;
      warn_count = warns;
      top_rule_ids = rule_ids;
    }

-- A round of the loop over the matches
abbrev pub requirement_decision : {Num : Type 0} → RequirementMatch Num → RequirementDecision
requirement_decision rm = record {
  requirement_text = rm.requirement_text;
  atom_id = rm.contributing_atom_id;
  evidence_tokens = rm.evidence_tokens;
}

unfoldable pub build_decision_record :
    {Num : Type 0} → MatchPipelineResponse Num → Str → Str → DecisionRecord
unfolding summarize
build_decision_record response decision_id created_at = record {
  decision_id = decision_id;
  trace_id = response.trace_id;
  artifact_id = report_artifact_id response.match_report.opportunity_id;
  created_at = some created_at;
  opportunity_id = response.match_report.opportunity_id;
  requirement_decisions = map requirement_decision response.match_report.requirement_matches;
  retrieval_stats = response.match_report.retrieval_stats;
  validation_summary = summarize response.validation_report;
  version = lit "0.3";
}

unfoldable pub fetch_decision : Str → List DecisionRecord → Option DecisionRecord
unfolding get
fetch_decision decision_id decision_store = get decision_store decision_id

unfoldable pub list_decisions_by_trace : Str → List DecisionRecord → List DecisionRecord
unfolding list_by_trace
list_decisions_by_trace trace_id decision_store = list_by_trace decision_store trace_id

abbrev pub recorded_payload : Str → Str → Str
recorded_payload decision_id opportunity_id =
    lit "{\"decision_id\":\""
    ++ decision_id
    ++ lit "\",\"opportunity_id\":\""
    ++ opportunity_id
    ++ lit "\"}"

module _ (dump : EventJson → Str) {Ids Time Num : Type 0} (id_gen : IdGenerator Ids)
    (clock : Clock Time) where
  -- The identifier, the store of decisions and the services
  unfoldable pub record_match_decision :
      MatchPipelineResponse Num
      → List DecisionRecord
      → Services Ids Time
      → Str × List DecisionRecord × Services Ids Time
  unfolding build_decision_record upsert append
  record_match_decision response decision_store services =
      let (decision_id, decision_ids) = id_gen.next services.ids (lit "decision") in
      let (created_at, time) = clock.now_iso8601 services.time in
      let decision = build_decision_record response decision_id created_at in
      let (event_id, ids) = id_gen.next decision_ids (lit "evt") in
      (
        decision_id,
        upsert decision_store decision,
        record {
          audit_log = append dump services.audit_log (record {
            event_id = event_id;
            trace_id = response.trace_id;
            event_type = lit "DecisionRecorded";
            payload = recorded_payload decision_id decision.opportunity_id;
            created_at = created_at;
            refs = decision.opportunity_id ∷ decision_id ∷ [];
            previous_hash = [];
            event_hash = [];
          });
          ids = ids;
          time = time;
        },
      )
