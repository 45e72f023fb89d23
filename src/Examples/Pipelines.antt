-- ===== src/Examples/Pipelines.antt =====
-- The pipelines with a counter for identifiers and a clock that stands still.
use career_coordination_mcp.Prelude.{
  ◌≢◌, ℕ, ◌+◌, ◌≡◌, ◌↔◌, lit, Str, true, none, some, [], ◌∷◌, ◌++◌, to_string, str_eq,
}
use career_coordination_mcp.Prelude.StringMap.{find}
use career_coordination_mcp.Examples.Numbers.{whole_numbers}
use career_coordination_mcp.Domain.Interaction.{send}
use career_coordination_mcp.Domain.MatchReport.{MatchReport}
use career_coordination_mcp.Constitution.Artifact.{overridden, OverrideRequest}
use career_coordination_mcp.Storage.Audit.{EventJson, select}
use career_coordination_mcp.Interaction.Coordinator.{applied, empty, apply_transition}
use career_coordination_mcp.App.Services.{IdGenerator, Clock, Services}
use career_coordination_mcp.App.Services.Events.{event_types}
use career_coordination_mcp.App.Validation.{run_validation_pipeline}
use career_coordination_mcp.App.Validation.Trail.{
  names_block, validation_events, report_findings, validation_trail,
}
use career_coordination_mcp.App.Transition.{
  InteractionTransitionRequest, run_interaction_transition,
}
use career_coordination_mcp.App.Transition.Trail.{transition_trail}
use career_coordination_mcp.Domain.Atom.{ExperienceAtom}
use career_coordination_mcp.Domain.Opportunity.{Opportunity}
use career_coordination_mcp.Matching.Candidates.{deterministic_lexical_v01}
use career_coordination_mcp.Matching.Evaluate.{ScoreWeights}
use career_coordination_mcp.App.Match.{MatchPipelineRequest, Sources}

abbrev pub counter : IdGenerator ℕ
counter = record { next = λ n prefix. (prefix ++ lit "-" ++ to_string n, n + 1) }

abbrev pub stopped : Clock ℕ
stopped = record { now_iso8601 = λ time. (lit "1970-01-01T00:00:00Z", time) }

abbrev pub dump : EventJson → Str
dump json = json.event_type ++ lit "," ++ json.payload

abbrev pub services : Services ℕ ℕ
services = record { audit_log = record { events = []; last_hash = [] }; ids = 0; time = 0 }

abbrev t : Str
t = lit "t"

abbrev request : InteractionTransitionRequest
request = record {
  interaction_id = lit "int-1";
  event = send;
  idempotency_key = lit "k";
  trace_id = some t;
}

transition_trail_example :
    let (trace_id, result, moved, done) =
      run_interaction_transition dump counter stopped request empty services in
    (trace_id ≡ t)
    × (apply_transition empty (lit "int-1") send (lit "k") ≡ (moved, result))
    × (result.outcome ≢ applied → moved ≡ empty)
    × (event_types done.audit_log t
        ≡ lit "InteractionTransitionAttempted" ∷ lit "InteractionTransitionRejected" ∷ [])
unfolding run_interaction_transition apply_transition find str_eq select
transition_trail_example = transition_trail dump counter stopped request empty services t

-- A report without requirements.
abbrev pub report : MatchReport ℕ
report = record {
  opportunity_id = lit "opp-1";
  strategy = lit "deterministic_lexical_v0.1";
  overall_score = 0;
  requirement_matches = [];
  missing_requirements = [];
  retrieval_stats = record {
    lexical_candidates = 0;
    embedding_candidates = 0;
    merged_candidates = 0;
  };
  matched_atoms = [];
  breakdown = record { lexical = 0; semantic = 0; bonus = 0; final_score = 0 };
}

abbrev override : OverrideRequest
override = record {
  binding_hash_alg = [];
  operator_id = lit "op";
  payload_hash = [];
  reason = lit "seen";
  rule_id = lit "SCHEMA-001";
}

validation_trail_example :
    let (validation_report, after) =
      run_validation_pipeline whole_numbers dump counter stopped report services t
        (some override) in
    ((validation_report.status ≡ overridden)
      ↔ (names_block (some override) (report_findings whole_numbers report t) ≡ true))
    × (event_types after.audit_log t ≡ validation_events validation_report.status)
unfolding str_eq select
validation_trail_example =
    validation_trail whole_numbers dump counter stopped report services t (some override) t

abbrev opportunity : Opportunity
opportunity = record {
  opportunity_id = lit "opp-1";
  company = lit "Acme";
  role_title = lit "Engineer";
  requirements = record { text = lit "Go"; tags = []; required = true } ∷ [];
  source = [];
}

abbrev atom : ExperienceAtom
atom = record {
  atom_id = lit "a1";
  domain = lit "backend";
  title = lit "Work";
  claim = lit "Wrote Go";
  tags = [];
  verified = true;
  evidence_refs = [];
}

abbrev weights : ScoreWeights ℕ
weights = record { lexical = 1; semantic = 1; bonus = 0 }

abbrev sources : Sources ℕ ℕ
sources = record {
  opportunities = (lit "opp-1", opportunity) ∷ [];
  atoms = (lit "a1", atom) ∷ [];
  embedding_provider = record { embed_text = λ text. text; dimension = 1 };
  vector_index = record { query = λ embedding k. [] };
}

-- A request by identifiers.
abbrev match_request : MatchPipelineRequest
match_request = record {
  opportunity = none;
  opportunity_id = some (lit "opp-1");
  atoms = none;
  atom_ids = some (lit "a1" ∷ []);
  strategy = deterministic_lexical_v01;
  k_lex = 25;
  k_emb = 25;
  trace_id = some t;
  resume_id = none;
  override_request = none;
}
