-- ===== src/Storage/Decisions.antt =====
-- The in-memory decision store (include/ccmcp/domain/decision_record.h,
-- include/ccmcp/storage/decision_store.h, src/storage/decision_store.cpp).
pub mod Latest
use career_coordination_mcp.Prelude.{
  ℕ, Str, Bool, Option, none, some, List, [], ◌∷◌, if◌then◌else◌, str_eq, str_lt,
}
use career_coordination_mcp.Prelude.Sorting.{sort_by}
use career_coordination_mcp.Domain.MatchReport.{RetrievalStats}

pub record RequirementDecision : Type 0 where
  pub requirement_text : Str
  pub atom_id : Option Str
  pub evidence_tokens : List Str

pub record ValidationSummary : Type 0 where
  pub status : Str
  pub finding_count : ℕ
  pub fail_count : ℕ
  pub warn_count : ℕ
  pub top_rule_ids : List Str

-- `RetrievalStatsSummary` has the fields of `RetrievalStats`.
pub record DecisionRecord : Type 0 where
  pub decision_id : Str
  pub trace_id : Str
  pub artifact_id : Str
  pub created_at : Option Str
  pub opportunity_id : Str
  pub requirement_decisions : List RequirementDecision
  pub retrieval_stats : RetrievalStats
  pub validation_summary : ValidationSummary
  pub version : Str

-- `upsert`, on `records_`
unfoldable pub upsert : List DecisionRecord → DecisionRecord → List DecisionRecord
upsert [] r = r ∷ []
upsert (existing ∷ records) r =
    if str_eq existing.decision_id r.decision_id then r ∷ records else existing ∷ upsert records r

unfoldable pub get : List DecisionRecord → Str → Option DecisionRecord
get [] decision_id = none
get (r ∷ records) decision_id =
    if str_eq r.decision_id decision_id then some r else get records decision_id

-- The loop of `list_by_trace`
unfoldable pub of_trace : List DecisionRecord → Str → List DecisionRecord
of_trace [] trace_id = []
of_trace (r ∷ records) trace_id =
    let rest = of_trace records trace_id in if str_eq r.trace_id trace_id then r ∷ rest else rest

unfoldable pub decision_less : DecisionRecord → DecisionRecord → Bool
decision_less a b = str_lt a.decision_id b.decision_id

unfoldable pub list_by_trace : List DecisionRecord → Str → List DecisionRecord
unfolding of_trace decision_less sort_by
list_by_trace records trace_id = sort_by decision_less (of_trace records trace_id)

-- A sequence of calls of `upsert`
unfoldable pub upsert_all : List DecisionRecord → List DecisionRecord → List DecisionRecord
unfolding upsert
upsert_all records [] = records
upsert_all records (r ∷ rs) = upsert_all (upsert records r) rs
