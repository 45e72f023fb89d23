-- ===== src/Examples/Decisions.antt =====
-- The decision store after three calls.
use career_coordination_mcp.Prelude.{◌≡◌, lit, Str, none, List, [], ◌∷◌}
use career_coordination_mcp.Storage.Decisions.{DecisionRecord, get, list_by_trace, upsert_all}
use career_coordination_mcp.Storage.Decisions.Latest.{
  latest, IsAscending, if_of_trace, decisions_latest,
}

abbrev decision : Str → Str → DecisionRecord
decision id trace = record {
  decision_id = id;
  trace_id = trace;
  artifact_id = lit "match-report-opp-1";
  created_at = none;
  opportunity_id = lit "opp-1";
  requirement_decisions = [];
  retrieval_stats = record {
    lexical_candidates = 1;
    embedding_candidates = 0;
    merged_candidates = 1;
  };
  validation_summary = record {
    status = lit "accepted";
    finding_count = 0;
    fail_count = 0;
    warn_count = 0;
    top_rule_ids = [];
  };
  version = lit "0.3";
}

-- The record of `d1` moves to another trace.
abbrev stored : List DecisionRecord
stored =
    decision (lit "d2") (lit "t")
    ∷ decision (lit "d1") (lit "t")
    ∷ decision (lit "d1") (lit "u")
    ∷ []

decisions_latest_example :
    ((id : Str) → get (upsert_all [] stored) id ≡ latest none stored id)
    × IsAscending (list_by_trace (upsert_all [] stored) (lit "t"))
    × ((id : Str)
        → get (list_by_trace (upsert_all [] stored) (lit "t")) id
          ≡ if_of_trace (lit "t") (latest none stored id))
decisions_latest_example = decisions_latest stored (lit "t")
