-- ===== src/Examples/Recorded.antt =====
-- A recorded decision and a build through the application service.
use career_coordination_mcp.Prelude.{
  ℕ, ◌+◌, ◌≡◌, ◌≢◌, ◌↔◌, Str, lit, none, some, [], ◌∷◌, str_eq, to_string,
}
use career_coordination_mcp.Prelude.Sorting.{any}
use career_coordination_mcp.Prelude.StringSet.{contains, IsAscending}
use career_coordination_mcp.Examples.Numbers.{whole_numbers}
use career_coordination_mcp.Constitution.Artifact.{ValidationReport}
use career_coordination_mcp.Constitution.Engine.{validate}
use career_coordination_mcp.Constitution.Rules.{make_default_constitution}
use career_coordination_mcp.Storage.Audit.{select}
use career_coordination_mcp.App.Services.Events.{event_types}
use career_coordination_mcp.App.Validation.{report_envelope, report_context}
use career_coordination_mcp.App.Match.{MatchPipelineResponse}
use career_coordination_mcp.App.Decisions.{
  summarize, is_fail_or_block, is_warn, record_match_decision, fetch_decision,
}
use career_coordination_mcp.App.Decisions.Summary.{count, graded, summary_lem}
use career_coordination_mcp.App.Decisions.Recorded.{record_of, decision_recorded}
use career_coordination_mcp.App.IndexBuild.{IndexBuildPipelineRequest, run_index_build_pipeline}
use career_coordination_mcp.App.IndexBuild.Trail.{index_trail, run_events}
use career_coordination_mcp.Indexing.RunStore.{empty}
use career_coordination_mcp.Examples.Pipelines.{counter, stopped, dump, services, report}
use career_coordination_mcp.Examples.Builds.{texts, upsert, provider, inputs}

abbrev validation_report : ValidationReport
validation_report =
    validate (make_default_constitution whole_numbers) (report_envelope report)
      (report_context (lit "t")) none

abbrev match_response : MatchPipelineResponse ℕ
match_response = record {
  trace_id = lit "t";
  match_report = report;
  validation_report = validation_report;
}

summary_lem_example :
    let s = summarize validation_report in
    (s.fail_count ≡ count is_fail_or_block validation_report.findings)
    × (s.warn_count ≡ count is_warn validation_report.findings)
    × IsAscending s.top_rule_ids
    × ((id : Str) → contains s.top_rule_ids id ≡ any (graded id) validation_report.findings)
    × ((s.status ≡ lit "accepted") ↔ (s.fail_count + s.warn_count ≡ 0))
    × ((s.status ≡ lit "needs_review") ↔ ((s.fail_count ≡ 0) × (s.warn_count ≢ 0)))
summary_lem_example =
    summary_lem (make_default_constitution whole_numbers) (report_envelope report)
      (report_context (lit "t"))

decision_recorded_example :
    let (decision_id, stored, after) =
      record_match_decision dump counter stopped match_response [] services in
    let decision = record_of match_response decision_id (lit "1970-01-01T00:00:00Z") in
    (fetch_decision decision_id stored ≡ some decision)
    × (fetch_decision (lit "other") stored ≡ none)
    × (event_types after.audit_log (lit "t") ≡ lit "DecisionRecorded" ∷ [])
unfolding record_match_decision fetch_decision str_eq select
decision_recorded_example =
    decision_recorded dump counter stopped match_response [] services (lit "other") (lit "t")

abbrev build_request : IndexBuildPipelineRequest
build_request = record { scope = lit "all"; trace_id = some (lit "t") }

index_trail_example :
    let (response, after_store, after_vectors, after) =
      run_index_build_pipeline texts upsert provider dump counter stopped build_request
        (lit "stub")
        inputs
        empty
        []
        services in
    event_types after.audit_log (lit "run-1")
    ≡ run_events texts upsert provider dump counter stopped response.indexed_count
unfolding str_eq select run_index_build_pipeline to_string
index_trail_example =
    index_trail texts upsert provider dump counter stopped build_request (lit "stub") inputs empty
      [] services (lit "run-1")
