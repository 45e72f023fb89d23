-- ===== src/App/Match.antt =====
-- `run_match_pipeline` (include/ccmcp/app/app_service.h, src/app/app_service.cpp). An exception is the
-- result `err`, with the services as they were when it was thrown. `std::to_string` of a `double` is
-- the parameter `show`, and the default weights of the matcher the parameter `weights`.
pub mod Trail
use career_coordination_mcp.Prelude.{ℕ, Str, lit, Option, none, some, List, [], ◌∷◌, ◌++◌}
use career_coordination_mcp.Prelude.StringMap.{StringMap}
use career_coordination_mcp.Core.Double.{Double}
use career_coordination_mcp.Core.Result.{Result, ok, err}
use career_coordination_mcp.Domain.Atom.{ExperienceAtom}
use career_coordination_mcp.Domain.Opportunity.{Opportunity}
use career_coordination_mcp.Domain.MatchReport.{MatchReport}
use career_coordination_mcp.Constitution.Artifact.{ValidationReport, OverrideRequest}
use career_coordination_mcp.Matching.Candidates.{
  MatchingStrategy, EmbeddingProvider, EmbeddingIndex,
}
use career_coordination_mcp.Matching.Evaluate.{ScoreWeights, Matcher, evaluate}
use career_coordination_mcp.Storage.Audit.{EventJson}
use career_coordination_mcp.Storage.Repositories.{get_atom, list_verified, get_opportunity}
use career_coordination_mcp.App.Services.{IdGenerator, Clock, Services, emit}
use career_coordination_mcp.App.Transition.{trace_or}
use career_coordination_mcp.App.Validation.{run_validation_pipeline}

pub record MatchPipelineRequest : Type 0 where
  pub opportunity : Option Opportunity
  pub opportunity_id : Option Str
  pub atoms : Option (List ExperienceAtom)
  pub atom_ids : Option (List Str)
  pub strategy : MatchingStrategy
  pub k_lex : ℕ
  pub k_emb : ℕ
  pub trace_id : Option Str
  pub resume_id : Option Str
  pub override_request : Option OverrideRequest

pub record MatchPipelineResponse (Num : Type 0) : Type 0 where
  pub trace_id : Str
  pub match_report : MatchReport Num
  pub validation_report : ValidationReport

-- What the pipeline reads
pub record Sources (Float Num : Type 0) : Type 0 where
  pub opportunities : StringMap Opportunity
  pub atoms : StringMap ExperienceAtom
  pub embedding_provider : EmbeddingProvider Float
  pub vector_index : EmbeddingIndex Float Num

unfoldable pub resolve_opportunity :
    StringMap Opportunity → MatchPipelineRequest → Result Opportunity Str
resolve_opportunity opportunities req = elim (req.opportunity) [
  | some opportunity ↦ ok opportunity
  | none ↦ elim (req.opportunity_id) [
    | none ↦ err (lit "Must provide either opportunity or opportunity_id")
    | some id ↦ elim (get_opportunity opportunities id) [
      | none ↦ err (lit "Opportunity not found: " ++ id)
      | some opportunity ↦ ok opportunity
    ]
  ]
]

-- The loop over `atom_ids`
unfoldable pub resolve_ids : StringMap ExperienceAtom → List Str → Result (List ExperienceAtom) Str
resolve_ids atoms [] = ok []
resolve_ids atoms (id ∷ ids) =
    let rest = resolve_ids atoms ids in
    elim (get_atom atoms id) [
      | none ↦ err (lit "Atom not found: " ++ id)
      | some atom ↦ elim rest [ err message ↦ err message | ok found ↦ ok (atom ∷ found) ]
    ]

unfoldable pub resolve_atoms :
    StringMap ExperienceAtom → MatchPipelineRequest → Result (List ExperienceAtom) Str
unfolding resolve_ids list_verified
resolve_atoms atoms req = elim (req.atoms) [
  | some given ↦ ok given
  | none ↦ elim (req.atom_ids) [
    | some ids ↦ resolve_ids atoms ids
    | none ↦ ok (list_verified atoms)
  ]
]

abbrev resume_context : Option Str → Str
resume_context none = []
resume_context (some id) = lit ",\"resume_id\":\"" ++ id ++ lit "\""

abbrev started_payload : Option Str → Str
started_payload resume_id =
    lit "{\"source\":\"app_service\",\"operation\":\"match_pipeline\""
    ++ resume_context resume_id
    ++ lit "}"

-- The matcher that the pipeline builds: the default `HybridConfig`, whatever `k_lex` and `k_emb` are
abbrev pub pipeline_matcher : {Num : Type 0} → ScoreWeights Num → MatchPipelineRequest → Matcher Num
pipeline_matcher weights req = record {
  weights = weights;
  strategy = req.strategy;
  hybrid_config = record { k_lexical = 25; k_embedding = 25 };
}

abbrev match_payload : {Num : Type 0} → (Num → Str) → MatchReport Num → Str
match_payload show report =
    lit "{\"opportunity_id\":\""
    ++ report.opportunity_id
    ++ lit "\",\"overall_score\":"
    ++ show report.overall_score
    ++ lit "}"

module _ (d : Double) (show : d.Num → Str) (weights : ScoreWeights d.Num) (dump : EventJson → Str)
    {Ids Time Float : Type 0} (id_gen : IdGenerator Ids) (clock : Clock Time) where
  open d use {Num}

  -- From the run of the matcher on
  unfoldable pub match_and_validate :
      MatchPipelineRequest
      → Sources Float Num
      → Services Ids Time
      → Str
      → Opportunity
      → List ExperienceAtom
      → MatchPipelineResponse Num × Services Ids Time
  unfolding evaluate emit run_validation_pipeline
  match_and_validate req sources services trace_id opportunity atoms =
      let report =
        evaluate d (pipeline_matcher weights req) opportunity atoms
          (some sources.embedding_provider) (some sources.vector_index) in
      let matched =
        emit dump id_gen clock services trace_id (lit "MatchCompleted") (match_payload show report)
          (report.opportunity_id ∷ []) in
      let (validation_report, validated) =
        run_validation_pipeline d dump id_gen clock report matched trace_id req.override_request in
      (
        record {
          trace_id = trace_id;
          match_report = report;
          validation_report = validation_report;
        },
        emit dump id_gen clock validated trace_id (lit "RunCompleted")
            (lit "{\"status\":\"success\"}") [],
      )

  unfoldable pub run_match_pipeline :
      MatchPipelineRequest
      → Sources Float Num
      → Services Ids Time
      → Result (MatchPipelineResponse Num) Str × Services Ids Time
  unfolding emit resolve_opportunity resolve_atoms match_and_validate
  run_match_pipeline req sources services =
      let (fresh, ids) = id_gen.next services.ids (lit "trace") in
      let trace_id = trace_or req.trace_id fresh in
      let started =
        emit dump id_gen clock (record services { ids = ids }) trace_id (lit "RunStarted")
          (started_payload req.resume_id) [] in
      elim (resolve_opportunity sources.opportunities req) [
        | err message ↦ (err message, started)
        | ok opportunity ↦ elim (resolve_atoms sources.atoms req) [
          | err message ↦ (err message, started)
          | ok atoms ↦
              let (response, completed) =
                match_and_validate req sources started trace_id opportunity atoms in
              (ok response, completed)
        ]
      ]
