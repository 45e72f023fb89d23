-- ===== src/App/Match/Trail.antt =====
-- What a run of the match pipeline leaves in the audit trail.
use career_coordination_mcp.Prelude.{
  ◌≡◌, ◌⊎◌, Str, lit, some, List, [], ◌∷◌, ◌++◌, if◌then◌else◌, str_eq,
}
use career_coordination_mcp.Core.Double.{Double}
use career_coordination_mcp.Core.Result.{Result, ok, err}
use career_coordination_mcp.Domain.Atom.{ExperienceAtom}
use career_coordination_mcp.Domain.Opportunity.{Opportunity}
use career_coordination_mcp.Matching.Evaluate.{ScoreWeights, evaluate}
use career_coordination_mcp.Storage.Audit.{EventJson}
use career_coordination_mcp.App.Services.{IdGenerator, Clock, Services}
use career_coordination_mcp.App.Services.Events.{event_types}
use career_coordination_mcp.App.Transition.Trail.{named_or}
use career_coordination_mcp.App.Validation.Trail.{validation_events}
use career_coordination_mcp.App.Match.{
  MatchPipelineRequest, MatchPipelineResponse, Sources, resolve_opportunity, resolve_atoms,
  pipeline_matcher,
}

-- The events of a completed run behind `RunStarted`.
abbrev pub completed_events : {Num : Type 0} → MatchPipelineResponse Num → List Str
completed_events response =
    lit "MatchCompleted"
    ∷ (validation_events response.validation_report.status ++ lit "RunCompleted" ∷ [])

-- The events of a run by its outcome.
abbrev pub match_events : {Num : Type 0} → Result (MatchPipelineResponse Num) Str → List Str
match_events (err message) = lit "RunStarted" ∷ []
match_events (ok response) = lit "RunStarted" ∷ completed_events response

module _ (d : Double) (show : d.Num → Str) (weights : ScoreWeights d.Num) (dump : EventJson → Str)
    {Ids Time Float : Type 0} (id_gen : IdGenerator Ids) (clock : Clock Time) where
  open d use {Num}

  -- What a run reports: the match of what was resolved, where all was, and else why it was not.
  abbrev pub Reports :
      MatchPipelineRequest → Sources Float Num → Result (MatchPipelineResponse Num) Str → Type 0
  Reports req sources (err message) =
      (resolve_opportunity sources.opportunities req ≡ err message)
      ⊎ ((opportunity : Opportunity) × (resolve_opportunity sources.opportunities req
            ≡ ok opportunity)
          × (resolve_atoms sources.atoms req ≡ err message))
  Reports req sources (ok response) =
      (opportunity : Opportunity) × (atoms : List ExperienceAtom) × (resolve_opportunity
          sources.opportunities req
        ≡ ok opportunity)
      × (resolve_atoms sources.atoms req ≡ ok atoms)
      × (response.match_report
          ≡ evaluate d (pipeline_matcher weights req) opportunity atoms
              (some sources.embedding_provider) (some sources.vector_index))

  -- The events of the run are those of its outcome, and its report is that of what was resolved.
  abbrev pub IsTraced :
      MatchPipelineRequest
      → Sources Float Num
      → Services Ids Time
      → Str
      → Result (MatchPipelineResponse Num) Str × Services Ids Time
      → Type 0
  IsTraced req sources services t run =
      (event_types run.1.audit_log t ≡ (
        if str_eq (named_or req.trace_id (id_gen.next services.ids (lit "trace")).0) t
        then event_types services.audit_log t ++ match_events run.0
        else event_types services.audit_log t))
      × Reports req sources run.0
