-- ===== src/App/IndexBuild.antt =====
-- `run_index_build_pipeline` (include/ccmcp/app/app_service.h, src/app/app_service.cpp), with the index
-- build pipeline.
pub mod Trail
use career_coordination_mcp.Prelude.{ℕ, Str, lit, Option, List, [], ◌∷◌, ◌++◌, to_string}
use career_coordination_mcp.Matching.Candidates.{EmbeddingProvider}
use career_coordination_mcp.Storage.Audit.{EventJson}
use career_coordination_mcp.Indexing.RunStore.{RunStore}
use career_coordination_mcp.Indexing.Build.{
  IndexBuildConfig, IndexBuildResult, Inputs, Texts, Build, run_index_build,
}
use career_coordination_mcp.App.Services.{IdGenerator, Clock, Services, emit}
use career_coordination_mcp.App.Transition.{trace_or}

pub record IndexBuildPipelineRequest : Type 0 where
  pub scope : Str
  pub trace_id : Option Str

pub record IndexBuildPipelineResponse : Type 0 where
  pub run_id : Str
  pub indexed_count : ℕ
  pub skipped_count : ℕ
  pub stale_count : ℕ
  pub trace_id : Str

abbrev pub build_started_payload : Str → Str
build_started_payload scope =
    lit "{\"source\":\"app_service\",\"operation\":\"index_build\",\"scope\":\""
    ++ scope
    ++ lit "\"}"

abbrev pub build_completed_payload : IndexBuildResult → Str
build_completed_payload result =
    lit "{\"run_id\":\""
    ++ result.run_id
    ++ lit "\",\"indexed\":"
    ++ to_string result.indexed_count
    ++ lit ",\"skipped\":"
    ++ to_string result.skipped_count
    ++ lit ",\"stale\":"
    ++ to_string result.stale_count
    ++ lit "}"

abbrev pub build_config : Str → Str → IndexBuildConfig
build_config scope provider_id = record {
  scope = scope;
  provider_id = provider_id;
  model_id = [];
  prompt_version = [];
}

module _ {Float Index Ids Time : Type 0} (texts : Texts Float)
    (upsert : Index → Str → List Float → Str → Index) (provider : EmbeddingProvider Float)
    (dump : EventJson → Str) (id_gen : IdGenerator Ids) (clock : Clock Time) where
  -- The response, the run store, the vector index and the services afterwards
  unfoldable pub run_index_build_pipeline :
      IndexBuildPipelineRequest
      → Str
      → Inputs
      → RunStore
      → Index
      → Services Ids Time
      → IndexBuildPipelineResponse × RunStore × Index × Services Ids Time
  unfolding emit run_index_build
  run_index_build_pipeline req provider_id inputs store vectors services =
      let (fresh, ids) = id_gen.next services.ids (lit "trace") in
      let trace_id = trace_or req.trace_id fresh in
      let started =
        emit dump id_gen clock (record services { ids = ids }) trace_id (lit "IndexBuildStarted")
          (build_started_payload req.scope) [] in
      let (result, build) =
        run_index_build texts upsert provider dump id_gen clock inputs
          (build_config req.scope provider_id) store vectors started in
      (
        record {
          run_id = result.run_id;
          indexed_count = result.indexed_count;
          skipped_count = result.skipped_count;
          stale_count = result.stale_count;
          trace_id = trace_id;
        },
        build.store,
        build.vectors,
        emit dump id_gen clock build.services trace_id (lit "IndexBuildCompleted")
            (build_completed_payload result) [],
      )
