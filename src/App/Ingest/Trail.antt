-- ===== src/App/Ingest/Trail.antt =====
-- What an ingestion leaves in the store of resumes and in the trail.
use career_coordination_mcp.Prelude.{
  ◌≡◌, refl, ◌∙◌, Str, lit, Bool, true, false, none, some, List, [], ◌∷◌, ◌++◌, if◌then◌else◌,
  str_eq, append_assoc,
}
use career_coordination_mcp.Prelude.StringMap.{StringMap}
use career_coordination_mcp.Core.Result.{Result, ok, err}
use career_coordination_mcp.Core.Hashing.{stable_hash64_hex}
use career_coordination_mcp.Storage.Audit.{EventJson}
use career_coordination_mcp.Ingest.Resume.{IngestedResume}
use career_coordination_mcp.Ingest.Ingestor.{FileState, ingest_file}
use career_coordination_mcp.Ingest.ResumeStore.{upsert, get, get_by_hash}
use career_coordination_mcp.Ingest.ResumeStore.Found.{hash_taken_of_found}
use career_coordination_mcp.App.Services.{IdGenerator, Clock, Services, emit}
use career_coordination_mcp.App.Services.Events.{event_types, event_types-emit}
use career_coordination_mcp.App.Transition.{trace_or}
use career_coordination_mcp.App.Ingest.{
  IngestResumePipelineRequest, IngestResumePipelineResponse, default_options, keep_resume,
  run_ingest_resume_pipeline, ingest_started_payload,
}

module _ (extract_docx : Str → Result Str Str) (dump : EventJson → Str) {Ids Time : Type 0}
    (id_gen : IdGenerator Ids) (clock : Clock Time) where
  -- The trace of a run.
  abbrev pub own_trace : IngestResumePipelineRequest → Services Ids Time → Str
  own_trace req services = trace_or req.trace_id (id_gen.next services.ids (lit "trace")).0

  abbrev start : IngestResumePipelineRequest → Services Ids Time → Services Ids Time
  start req services = record services { ids = (id_gen.next services.ids (lit "trace")).1 }

  -- The services after the first event.
  abbrev started : IngestResumePipelineRequest → Services Ids Time → Services Ids Time
  started req services =
      emit dump id_gen clock (start req services) (own_trace req services) (lit "IngestStarted")
        (ingest_started_payload req.persist) []

  -- What the ingestor answers in a run.
  abbrev pub ingested :
      (Str → FileState)
      → IngestResumePipelineRequest
      → Services Ids Time
      → Result IngestedResume Str
  ingested files req services =
      (ingest_file extract_docx id_gen clock files req.input_path default_options
        (started req services).ids (started req services).time).0

  abbrev pub events_of : Result IngestedResume Str → List Str
  events_of (err message) = lit "IngestStarted" ∷ []
  events_of (ok resume) = lit "IngestStarted" ∷ lit "IngestCompleted" ∷ []

  abbrev pub response : IngestedResume → Str → IngestResumePipelineResponse
  response resume trace_id = record {
    resume_id = resume.resume_id;
    resume_hash = resume.resume_hash;
    source_hash = stable_hash64_hex resume.resume_md;
    trace_id = trace_id;
  }

  abbrev pub answer_of : Str → Result IngestedResume Str → Result IngestResumePipelineResponse Str
  answer_of trace_id (err message) = err (lit "Ingestion failed: " ++ message)
  answer_of trace_id (ok resume) = ok (response resume trace_id)

  abbrev pub store_of :
      Bool → StringMap IngestedResume → Result IngestedResume Str → StringMap IngestedResume
  store_of persist rows (err message) = rows
  store_of persist rows (ok resume) = if persist then upsert rows resume else rows

  abbrev pub run :
      (Str → FileState)
      → IngestResumePipelineRequest
      → StringMap IngestedResume
      → Services Ids Time
      → Result IngestResumePipelineResponse Str × StringMap IngestedResume × Services Ids Time
  run = run_ingest_resume_pipeline extract_docx dump id_gen clock

  events_together :
      (same : Bool) (before : List Str)
      → (if same
          then (if same then before ++ lit "IngestStarted" ∷ [] else before)
            ++ lit "IngestCompleted" ∷ []
          else if same
          then before ++ lit "IngestStarted" ∷ []
          else before)
        ≡ (if same then before ++ lit "IngestStarted" ∷ lit "IngestCompleted" ∷ [] else before)
  events_together true before = append_assoc before _ _
  events_together false before = refl

  -- A run answers what the ingestor does, an error as an exception. It adds to its own trace
  -- `IngestStarted` and, if the ingestor succeeds, `IngestCompleted`, and nothing to any other trace; and
  -- it puts the resume into the store if the ingestor succeeds and the request is to persist it.
  pub ingest_trail :
      (files : Str → FileState) (req : IngestResumePipelineRequest)
      (rows : StringMap IngestedResume) (services : Services Ids Time) (t : Str)
      → let (answer, kept, after) = run files req rows services in
        let trace_id = own_trace req services in
        let result = ingested files req services in
        (answer ≡ answer_of trace_id result)
        × (kept ≡ store_of req.persist rows result)
        × (event_types after.audit_log t ≡ (
            if str_eq trace_id t
            then event_types services.audit_log t ++ events_of result
            else event_types services.audit_log t))
  unfolding run_ingest_resume_pipeline keep_resume
  ingest_trail files req rows services t = go (
      ingest_file extract_docx id_gen clock files req.input_path default_options
        (started req services).ids (started req services).time)
    where
      go :
          (answer : Result IngestedResume Str × Ids × Time)
          → let trace_id = own_trace req services in
            let (result, drawn, time) = answer in
            let ingested_services : Services Ids Time = record (started req services) {
              ids = drawn;
              time = time;
            } in
            let (said, kept, after) =
              elim result
                as (λ _.
                  Result IngestResumePipelineResponse Str
                  × StringMap IngestedResume
                  × Services Ids Time) [
                    | err message ↦
                        (err (lit "Ingestion failed: " ++ message), rows, ingested_services)
                    | ok resume ↦
                        keep_resume extract_docx dump id_gen clock req trace_id resume rows
                          ingested_services
                  ] in
            (said ≡ answer_of trace_id result)
            × (kept ≡ store_of req.persist rows result)
            × (event_types after.audit_log t ≡ (
                if str_eq trace_id t
                then event_types services.audit_log t ++ events_of result
                else event_types services.audit_log t))
      go (err message, drawn, time) = (
        refl,
        refl,
        event_types-emit dump id_gen clock (start req services) (own_trace req services) _ _ _ t,
      )
      go (ok resume, drawn, time) = (
        refl,
        refl,
        event_types-emit dump id_gen clock
              (record (started req services) { ids = drawn; time = time }) (own_trace req services)
              _ _ _ t
            ∙ rw
                (event_types-emit dump id_gen clock (start req services) (own_trace req services) _
                  _ _ t)
                (events_together (str_eq (own_trace req services) t)
                  (event_types services.audit_log t)),
      )

  -- Where the ingested text is stored already under another identifier, a run that is to persist it answers
  -- as for success with the new identifier, which finds nothing in the store.
  pub reingested_is_lost :
      (files : Str → FileState) (req : IngestResumePipelineRequest)
      (rows : StringMap IngestedResume) (services : Services Ids Time) (r old : IngestedResume)
      → req.persist ≡ true
      → ingested files req services ≡ ok r
      → get rows r.resume_id ≡ none
      → get_by_hash rows r.resume_hash ≡ some old
      → let (answer, kept, after) = run files req rows services in
        (answer ≡ ok (response r (own_trace req services))) × (get kept r.resume_id ≡ none)
  unfolding upsert get
  reingested_is_lost files req rows services r old persist success new known =
      let (answered, kept, _) = ingest_trail files req rows services [] in
      let unchanged : (run files req rows services).1 ≡ rows =
        kept ∙ rw (success, persist, hash_taken_of_found rows r old new known) refl in
      (answered ∙ rw success refl, rw unchanged new)
