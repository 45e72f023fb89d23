-- ===== src/App/Decisions/Recorded.antt =====
-- What recording a decision leaves in the store and in the trail.
use career_coordination_mcp.Prelude.{
  ℕ, ◌+◌, arith, ◌≡◌, refl, ◌∙◌, sym, Str, lit, Bool, some, List, [], ◌∷◌, ◌++◌, ◌||◌, map, length,
  if◌then◌else◌, str_eq, str_eq_refl, Bool-cases, inl, inr,
}
use career_coordination_mcp.Prelude.StringSet.{insert, insert_all}
use career_coordination_mcp.Constitution.Artifact.{
  fail, block, warn, Finding, ValidationStatus, accepted, needs_review, rejected, blocked,
  overridden, ValidationReport,
}
use career_coordination_mcp.Constitution.Engine.{severity_is}
use career_coordination_mcp.Storage.Audit.{EventJson, append}
use career_coordination_mcp.Storage.Decisions.{ValidationSummary, DecisionRecord}
use career_coordination_mcp.Storage.Decisions.Latest.{get-upsert}
use career_coordination_mcp.App.Services.{IdGenerator, Clock, Services}
use career_coordination_mcp.App.Services.Events.{event_types, types-append}
use career_coordination_mcp.App.Match.{MatchPipelineResponse}
use career_coordination_mcp.App.Decisions.{
  tally, summarize, summary_status, build_decision_record, record_match_decision, fetch_decision,
}
use career_coordination_mcp.App.Decisions.Summary.{count, tally_lem}

-- A status in words.
abbrev status_word : ValidationStatus → Str
status_word accepted = lit "accepted"
status_word needs_review = lit "needs_review"
status_word rejected = lit "rejected"
status_word blocked = lit "blocked"
status_word overridden = lit "overridden"

summary_status_lem : (status : ValidationStatus) → summary_status status ≡ status_word status
unfolding summary_status
summary_status_lem accepted = refl
summary_status_lem needs_review = refl
summary_status_lem rejected = refl
summary_status_lem blocked = refl
summary_status_lem overridden = refl

abbrev is_grave : Finding → Bool
is_grave f = severity_is fail f || severity_is block f

-- The rules of the findings of severity `warn`, `fail` or `block`.
abbrev rules_of : List Finding → List Str
rules_of [] = []
rules_of (f ∷ findings) =
    let rest = rules_of findings in
    if is_grave f || severity_is warn f then f.rule_id ∷ rest else rest

tally-rules :
    (fails warns : ℕ) (ids : List Str) (findings : List Finding)
    → (tally fails warns ids findings).2 ≡ insert_all ids (rules_of findings)
unfolding tally insert_all
tally-rules fails warns ids [] = refl
tally-rules fails warns ids (f ∷ findings) = elim (Bool-cases (is_grave f || severity_is warn f)) [
  | inl counts ↦ rw counts (
      tally-rules (fails + (if is_grave f then 1 else 0))
        (warns + (if severity_is warn f then 1 else 0)) (insert ids f.rule_id) findings)
  | inr passes ↦ rw passes (tally-rules fails warns ids findings)
]

-- The summary of a report: its status in words, how many findings it has, how many of them are of
-- severity `fail` or `block` and how many of `warn`, and the rules of these, each once and in order.
abbrev pub summary_of : ValidationReport → ValidationSummary
summary_of report = record {
  status = status_word report.status;
  finding_count = length report.findings;
  fail_count = count is_grave report.findings;
  warn_count = count (severity_is warn) report.findings;
  top_rule_ids = insert_all [] (rules_of report.findings);
}

summarize_lem : (report : ValidationReport) → summarize report ≡ summary_of report
unfolding summarize
summarize_lem report =
    let counted = tally_lem 0 0 [] report.findings tt in
    let fails : (tally 0 0 [] report.findings).0 ≡ count is_grave report.findings =
      counted.0 ∙ omega arith in
    let warns : (tally 0 0 [] report.findings).1 ≡ count (severity_is warn) report.findings =
      counted.1 ∙ omega arith in
    rw
      (
        sym (summary_status_lem report.status),
        sym (tally-rules 0 0 [] report.findings),
        fails,
        warns,
      )
      refl

-- The record of a response, field by field.
abbrev pub record_of : {Num : Type 0} → MatchPipelineResponse Num → Str → Str → DecisionRecord
record_of response id time = record {
  decision_id = id;
  trace_id = response.trace_id;
  artifact_id = lit "match-report-" ++ response.match_report.opportunity_id;
  created_at = some time;
  opportunity_id = response.match_report.opportunity_id;
  requirement_decisions =
      map
        (λ match. record {
          requirement_text = match.requirement_text;
          atom_id = match.contributing_atom_id;
          evidence_tokens = match.evidence_tokens;
        })
        response.match_report.requirement_matches;
  retrieval_stats = response.match_report.retrieval_stats;
  validation_summary = summary_of response.validation_report;
  version = lit "0.3";
}

build_decision_record_lem :
    {Num : Type 0} (response : MatchPipelineResponse Num) (id time : Str)
    → build_decision_record response id time ≡ record_of response id time
unfolding build_decision_record
build_decision_record_lem response id time =
    rw (sym (summarize_lem response.validation_report)) refl

module _ (dump : EventJson → Str) {Ids Time Num : Type 0} (id_gen : IdGenerator Ids)
    (clock : Clock Time) where
  -- The identifier that a recording returns fetches a record with the trace, the artifact and the
  -- opportunity of the response, the time that was read for it, the text, the atom and the evidence of
  -- each of its requirements, its retrieval counts, and the status, the counts and the rules of its
  -- findings; any other identifier fetches what it did before. The recording adds `DecisionRecorded`
  -- to the trace of the response, and nothing to any other trace.
  pub decision_recorded :
      (response : MatchPipelineResponse Num) (decision_store : List DecisionRecord)
      (services : Services Ids Time) (id t : Str)
      → let (decision_id, stored, after) =
          record_match_decision dump id_gen clock response decision_store services in
        let decision = record_of response decision_id (clock.now_iso8601 services.time).0 in
        (fetch_decision decision_id stored ≡ some decision)
        × (fetch_decision id stored
            ≡ (if str_eq decision_id id then some decision else fetch_decision id decision_store))
        × (event_types after.audit_log t ≡ (
            if str_eq response.trace_id t
            then event_types services.audit_log t ++ lit "DecisionRecorded" ∷ []
            else event_types services.audit_log t))
  unfolding record_match_decision fetch_decision append
  decision_recorded response decision_store services id t =
      let (decision_id, ids) = id_gen.next services.ids (lit "decision") in
      let decision =
        build_decision_record response decision_id (clock.now_iso8601 services.time).0 in
      rw (sym (build_decision_record_lem response decision_id (clock.now_iso8601 services.time).0))
        (
          get-upsert decision_store decision decision_id ∙ rw str_eq_refl refl,
          get-upsert decision_store decision id,
          types-append t services.audit_log.events _,
        )
