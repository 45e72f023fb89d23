-- ===== src/App/Ingest.antt =====
-- `run_ingest_resume_pipeline` (include/ccmcp/app/app_service.h, src/app/app_service.cpp), with the
-- resume ingestor and the store of resumes. An exception is an `err`.
pub mod Trail
use career_coordination_mcp.Prelude.{
  Str, lit, Bool, true, Option, none, List, [], ◌∷◌, ◌++◌, if◌then◌else◌,
}
use career_coordination_mcp.Prelude.StringMap.{StringMap}
use career_coordination_mcp.Core.Result.{Result, ok, err}
use career_coordination_mcp.Core.Hashing.{stable_hash64_hex}
use career_coordination_mcp.Storage.Audit.{EventJson}
use career_coordination_mcp.Ingest.Resume.{IngestedResume}
use career_coordination_mcp.Ingest.Ingestor.{IngestOptions, FileState, ingest_file}
use career_coordination_mcp.Ingest.ResumeStore.{upsert}
use career_coordination_mcp.App.Services.{IdGenerator, Clock, Services, emit}
use career_coordination_mcp.App.Transition.{trace_or}

pub record IngestResumePipelineRequest : Type 0 where
  pub input_path : Str
  pub persist : Bool
  pub trace_id : Option Str

pub record IngestResumePipelineResponse : Type 0 where
  pub resume_id : Str
  pub resume_hash : Str
  pub source_hash : Str
  pub trace_id : Str

abbrev pub bool_text : Bool → Str
bool_text b = if b then lit "true" else lit "false"

abbrev pub ingest_started_payload : Bool → Str
ingest_started_payload persist =
    lit "{\"source\":\"app_service\",\"operation\":\"ingest_resume\",\"persist\":"
    ++ bool_text persist
    ++ lit "}"

abbrev pub ingest_completed_payload : IngestedResume → Str → Bool → Str
ingest_completed_payload resume source_hash persist =
    lit "{\"resume_id\":\""
    ++ resume.resume_id
    ++ lit "\",\"resume_hash\":\""
    ++ resume.resume_hash
    ++ lit "\",\"source_hash\":\""
    ++ source_hash
    ++ lit "\",\"persisted\":"
    ++ bool_text persist
    ++ lit "}"

-- `IngestOptions options;`
abbrev pub default_options : IngestOptions
default_options = record { source_path = none; extracted_at = none; enable_hygiene = true }

module _ (extract_docx : Str → Result Str Str) (dump : EventJson → Str) {Ids Time : Type 0}
    (id_gen : IdGenerator Ids) (clock : Clock Time) where
  -- What follows the ingestion of a resume
  unfoldable pub keep_resume :
      IngestResumePipelineRequest
      → Str
      → IngestedResume
      → StringMap IngestedResume
      → Services Ids Time
      → Result IngestResumePipelineResponse Str × StringMap IngestedResume × Services Ids Time
  unfolding stable_hash64_hex upsert emit
  keep_resume req trace_id resume resume_store services =
      let source_hash = stable_hash64_hex resume.resume_md in
      (
        ok (record {
          resume_id = resume.resume_id;
          resume_hash = resume.resume_hash;
          source_hash = source_hash;
          trace_id = trace_id;
        }),
        if req.persist then upsert resume_store resume else resume_store,
        emit dump id_gen clock services trace_id (lit "IngestCompleted")
            (ingest_completed_payload resume source_hash req.persist) (resume.resume_id ∷ []),
      )

  unfoldable pub run_ingest_resume_pipeline :
      (Str → FileState)
      → IngestResumePipelineRequest
      → StringMap IngestedResume
      → Services Ids Time
      → Result IngestResumePipelineResponse Str × StringMap IngestedResume × Services Ids Time
  unfolding emit ingest_file keep_resume
  run_ingest_resume_pipeline files req resume_store services =
      let (fresh, ids) = id_gen.next services.ids (lit "trace") in
      let trace_id = trace_or req.trace_id fresh in
      let started =
        emit dump id_gen clock (record services { ids = ids }) trace_id (lit "IngestStarted")
          (ingest_started_payload req.persist) [] in
      let (result, drawn, time) =
        ingest_file extract_docx id_gen clock files req.input_path default_options started.ids
          started.time in
      let ingested : Services Ids Time = record started { ids = drawn; time = time } in
      elim result [
        | err message ↦ (err (lit "Ingestion failed: " ++ message), resume_store, ingested)
        | ok resume ↦ keep_resume req trace_id resume resume_store ingested
      ]
