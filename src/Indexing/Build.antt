-- ===== src/Indexing/Build.antt =====
-- `run_index_build` (include/ccmcp/indexing/index_build_pipeline.h,
-- src/indexing/index_build_pipeline.cpp). The three loops of the code differ in the records that they
-- read; each is `index_all` on what they read of them, an `Artifact`.
pub mod Rounds
pub mod Loop
pub mod Opened
pub mod Settled
pub mod Again
use career_coordination_mcp.Prelude.{
  ℕ, ◌+◌, Str, lit, Bool, true, false, not, Option, none, some, List, [], ◌∷◌, ◌++◌, ◌||◌, map,
  if◌then◌else◌, str_eq, is_none, is_empty,
}
use career_coordination_mcp.Prelude.StringMap.{StringMap}
use career_coordination_mcp.Core.Hashing.{stable_hash64_hex}
use career_coordination_mcp.Domain.Atom.{ExperienceAtom}
use career_coordination_mcp.Domain.Opportunity.{Requirement, Opportunity}
use career_coordination_mcp.Ingest.Resume.{IngestedResume}
use career_coordination_mcp.Matching.Candidates.{EmbeddingProvider}
use career_coordination_mcp.Storage.Audit.{EventJson, append}
use career_coordination_mcp.Storage.Repositories.{list_all_atoms, list_all_opportunities}
use career_coordination_mcp.App.Services.{IdGenerator, Clock, Services}
use career_coordination_mcp.Indexing.Run.{IndexRun, IndexEntry, running, completed}
use career_coordination_mcp.Indexing.RunStore.{
  RunStore, Query, upsert_run, upsert_entry, get_last_source_hash, next_index_run_id,
}

-- The loop over the tags, and over the requirements
unfoldable pub spaced : Str → List Str → Str
spaced text [] = text
spaced text (part ∷ parts) = spaced (text ++ (lit " " ++ part)) parts

unfoldable pub atom_canonical_text : ExperienceAtom → Str
unfolding spaced
atom_canonical_text atom = spaced (atom.title ++ (lit " " ++ atom.claim)) atom.tags

unfoldable pub opportunity_canonical_text : Opportunity → Str
unfolding spaced
opportunity_canonical_text opp =
    spaced (opp.role_title ++ (lit " " ++ opp.company)) (map (λ req. req.text) opp.requirements)

pub record IndexBuildConfig : Type 0 where
  pub scope : Str
  pub provider_id : Str
  pub model_id : Str
  pub prompt_version : Str

pub record IndexBuildResult : Type 0 where
  pub indexed_count : ℕ
  pub skipped_count : ℕ
  pub stale_count : ℕ
  pub run_id : Str

-- What one round of a loop is about
pub record Artifact : Type 0 where
  pub artifact_type : Str
  pub artifact_id : Str
  pub vector_key : Str
  pub canonical_text : Str

abbrev pub of_atom : ExperienceAtom → Artifact
of_atom atom = record {
  artifact_type = lit "atom";
  artifact_id = atom.atom_id;
  vector_key = atom.atom_id;
  canonical_text = atom_canonical_text atom;
}

abbrev pub of_resume : IngestedResume → Artifact
of_resume resume = record {
  artifact_type = lit "resume";
  artifact_id = resume.resume_id;
  vector_key = lit "resume:" ++ resume.resume_id;
  canonical_text = resume.resume_md;
}

abbrev pub of_opportunity : Opportunity → Artifact
of_opportunity opp = record {
  artifact_type = lit "opportunity";
  artifact_id = opp.opportunity_id;
  vector_key = lit "opp:" ++ opp.opportunity_id;
  canonical_text = opportunity_canonical_text opp;
}

-- What the pipeline reads; the resume store gives its list
pub record Inputs : Type 0 where
  pub atoms : StringMap ExperienceAtom
  pub resumes : List IngestedResume
  pub opportunities : StringMap Opportunity

abbrev in_scope : Str → Str → Bool
in_scope scope kind = str_eq scope kind || str_eq scope (lit "all")

-- The artifacts of the loops that run, in their order
unfoldable pub artifacts : Inputs → Str → List Artifact
unfolding str_eq
artifacts inputs scope =
    (if in_scope scope (lit "atoms") then map of_atom (list_all_atoms inputs.atoms) else [])
    ++ ((if in_scope scope (lit "resumes") then map of_resume inputs.resumes else [])
        ++ (if in_scope scope (lit "opportunities")
            then map of_opportunity (list_all_opportunities inputs.opportunities)
            else []))

-- The texts that the JSON library makes, and the bytes of a vector in memory
pub record Texts (Float : Type 0) : Type 0 where
  pub vector_bytes : List Float → Str
  pub metadata : Str → Str → Str → Str
  pub started : Str → IndexBuildConfig → Str
  pub indexed : Str → Str → Str → Bool → Str
  pub summary : ℕ → ℕ → ℕ → Str → Str
  pub completed : Str → ℕ → ℕ → ℕ → Str

-- What the pipeline writes to, and its three counts
pub record Build (Index Ids Time : Type 0) : Type 0 where
  pub store : RunStore
  pub vectors : Index
  pub services : Services Ids Time
  pub indexed : ℕ
  pub skipped : ℕ
  pub stale : ℕ

-- `vector_hash`
abbrev pub vector_hash : {Float : Type 0} → (List Float → Str) → List Float → Str
vector_hash bytes [] = stable_hash64_hex []
vector_hash bytes (x ∷ vec) = stable_hash64_hex (bytes (x ∷ vec))

-- The question that the pipeline asks about an artifact
abbrev pub query_of : IndexBuildConfig → Artifact → Query
query_of config artifact = record {
  artifact_id = artifact.artifact_id;
  artifact_type = artifact.artifact_type;
  provider_id = config.provider_id;
  model_id = config.model_id;
  prompt_version = config.prompt_version;
}

abbrev pub source_hash : Artifact → Str
source_hash artifact = stable_hash64_hex artifact.canonical_text

-- `prior_hash.has_value() && prior_hash.value() == src_hash`
abbrev pub is_current : Option Str → Str → Bool
is_current none src_hash = false
is_current (some prior) src_hash = str_eq prior src_hash

abbrev pub started_run : IndexBuildConfig → Str → Str → IndexRun
started_run config run_id started_at = record {
  run_id = run_id;
  started_at = some started_at;
  completed_at = none;
  provider_id = config.provider_id;
  model_id = config.model_id;
  prompt_version = config.prompt_version;
  status = running;
  summary_json = lit "{}";
}

module _ {Float Index Ids Time : Type 0} (texts : Texts Float)
    (upsert : Index → Str → List Float → Str → Index) (provider : EmbeddingProvider Float)
    (dump : EventJson → Str) (id_gen : IdGenerator Ids) (clock : Clock Time) where
  unfoldable pub emit_audit : Services Ids Time → Str → Str → Str → Str → Services Ids Time
  unfolding append
  emit_audit services run_id event_type payload timestamp =
      let (event_id, ids) = id_gen.next services.ids (lit "evt") in
      record services {
        audit_log = append dump services.audit_log (record {
          event_id = event_id;
          trace_id = run_id;
          event_type = event_type;
          payload = payload;
          created_at = timestamp;
          refs = [];
          previous_hash = [];
          event_hash = [];
        });
        ids = ids;
      }

  module _ (config : IndexBuildConfig) (run_id : Str) where
    -- From `vector_hash` to the end of a round
    unfoldable pub write_artifact :
        Build Index Ids Time → Artifact → Bool → List Float → Build Index Ids Time
    unfolding stable_hash64_hex upsert_entry emit_audit
    write_artifact build artifact is_stale embedding =
        let src_hash = source_hash artifact in
        let (indexed_at, time) = clock.now_iso8601 build.services.time in
        let entry : IndexEntry = record {
          run_id = run_id;
          artifact_type = artifact.artifact_type;
          artifact_id = artifact.artifact_id;
          source_hash = src_hash;
          vector_hash = vector_hash texts.vector_bytes embedding;
          indexed_at = some indexed_at;
        } in
        record {
          store = upsert_entry build.store entry;
          vectors =
              upsert build.vectors artifact.vector_key embedding
                (texts.metadata artifact.artifact_type artifact.artifact_id src_hash);
          services =
              emit_audit (record (build.services) { time = time }) run_id (lit "IndexedArtifact")
                (texts.indexed artifact.artifact_type artifact.artifact_id src_hash is_stale)
                indexed_at;
          indexed = build.indexed + 1;
          skipped = build.skipped;
          stale = if is_stale then build.stale + 1 else build.stale;
        }

    -- A round of a loop
    unfoldable pub index_artifact : Build Index Ids Time → Artifact → Build Index Ids Time
    unfolding get_last_source_hash write_artifact
    index_artifact build artifact =
        let prior_hash = get_last_source_hash build.store (query_of config artifact) in
        if is_current prior_hash (source_hash artifact)
        then record build { skipped = build.skipped + 1 }
        else (let embedding = provider.embed_text artifact.canonical_text in
            if is_empty embedding
            then build
            else write_artifact build artifact (not (is_none prior_hash)) embedding)

    unfoldable pub index_all : Build Index Ids Time → List Artifact → Build Index Ids Time
    unfolding index_artifact
    index_all build [] = build
    index_all build (artifact ∷ artifacts) = index_all (index_artifact build artifact) artifacts

  abbrev pub completed_run : IndexBuildConfig → Str → Str → Str → Build Index Ids Time → IndexRun
  completed_run config run_id started_at completed_at build =
      record (started_run config run_id started_at) {
        status = completed;
        completed_at = some completed_at;
        summary_json = texts.summary build.indexed build.skipped build.stale config.scope;
      }

  -- The completion of the run
  unfoldable pub complete :
      IndexBuildConfig → Str → Str → Build Index Ids Time → Build Index Ids Time
  unfolding upsert_run emit_audit
  complete config run_id started_at build =
      let (completed_at, time) = clock.now_iso8601 build.services.time in
      record build {
        store = upsert_run build.store (completed_run config run_id started_at completed_at build);
        services =
            emit_audit (record (build.services) { time = time }) run_id (lit "IndexRunCompleted")
              (texts.completed run_id build.indexed build.skipped build.stale) completed_at;
      }

  -- Up to the loops: the run and its start
  unfoldable pub begin :
      IndexBuildConfig → RunStore → Index → Services Ids Time → Str × Str × Build Index Ids Time
  unfolding next_index_run_id upsert_run emit_audit
  begin config store vectors services =
      let (run_id, counted) = next_index_run_id store in
      let (started_at, time) = clock.now_iso8601 services.time in
      (
        run_id,
        started_at,
        record {
          store = upsert_run counted (started_run config run_id started_at);
          vectors = vectors;
          services =
              emit_audit (record services { time = time }) run_id (lit "IndexRunStarted")
                (texts.started run_id config) started_at;
          indexed = 0;
          skipped = 0;
          stale = 0;
        },
      )

  unfoldable pub run_index_build :
      Inputs
      → IndexBuildConfig
      → RunStore
      → Index
      → Services Ids Time
      → IndexBuildResult × Build Index Ids Time
  unfolding begin artifacts index_all complete
  run_index_build inputs config store vectors services =
      let (run_id, started_at, started) = begin config store vectors services in
      let indexed = index_all config run_id started (artifacts inputs config.scope) in
      (
        record {
          indexed_count = indexed.indexed;
          skipped_count = indexed.skipped;
          stale_count = indexed.stale;
          run_id = run_id;
        },
        complete config run_id started_at indexed,
      )
