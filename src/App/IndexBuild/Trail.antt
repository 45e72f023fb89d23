-- ===== src/App/IndexBuild/Trail.antt =====
-- What an index build leaves in the trail: of the pipeline and of the run.
use career_coordination_mcp.Prelude.{
  ℕ, zero, suc, ◌+◌, ◌≡◌, refl, ◌∙◌, ap, Str, lit, Bool, true, false, List, [], ◌∷◌, ◌++◌,
  if◌then◌else◌, str_eq, arith, append_assoc, append-nil, replicate,
}
use career_coordination_mcp.Matching.Candidates.{EmbeddingProvider}
use career_coordination_mcp.Storage.Audit.{EventJson, append}
use career_coordination_mcp.Indexing.RunStore.{RunStore, next_index_run_id}
use career_coordination_mcp.Indexing.Build.{
  IndexBuildConfig, Artifact, Inputs, Texts, Build, artifacts, write_artifact, emit_audit,
  index_artifact, index_all, begin, complete, run_index_build,
}
use career_coordination_mcp.Indexing.Build.Rounds.{Round, skips, passes, writes, rounds}
use career_coordination_mcp.App.Services.{IdGenerator, Clock, Services, emit}
use career_coordination_mcp.App.Services.Events.{event_types, event_types-emit, types-append}
use career_coordination_mcp.App.Transition.{trace_or}
use career_coordination_mcp.App.IndexBuild.{
  IndexBuildPipelineRequest, build_config, build_started_payload, run_index_build_pipeline,
}

-- A trace with events added, where they are its own.
abbrev pub added : Bool → List Str → List Str → List Str
added own before events = if own then before ++ events else before

added_twice :
    (own : Bool) (before first second : List Str)
    → added own (added own before first) second ≡ added own before (first ++ second)
added_twice true before first second = append_assoc before first second
added_twice false before first second = refl

-- The events of a number of artifacts.
abbrev pub indexed_events : ℕ → List Str
indexed_events n = replicate n (lit "IndexedArtifact")

replicate-add : (m n k : ℕ) → k ≡ m + n → indexed_events m ++ indexed_events n ≡ indexed_events k
replicate-add zero n k e = let same : n ≡ k = omega (arith, e) in ap (λ i. indexed_events i) same
replicate-add (suc m) n zero e = absurd (omega (arith, e))
replicate-add (suc m) n (suc k) e =
    ap (λ r. lit "IndexedArtifact" ∷ r) (replicate-add m n k (omega (arith, e)))

module _ {Float Index Ids Time : Type 0} (texts : Texts Float)
    (upsert : Index → Str → List Float → Str → Index) (provider : EmbeddingProvider Float)
    (dump : EventJson → Str) (id_gen : IdGenerator Ids) (clock : Clock Time) where
  event_types-emit_audit :
      (services : Services Ids Time) (run_id event_type payload timestamp t : Str)
      → event_types
          (emit_audit texts upsert provider dump id_gen clock services run_id event_type payload
            timestamp).audit_log
          t
        ≡ added (str_eq run_id t) (event_types services.audit_log t) (event_type ∷ [])
  unfolding emit_audit append
  event_types-emit_audit services run_id event_type payload timestamp t =
      types-append t services.audit_log.events _

  module _ (config : IndexBuildConfig) (run_id t : Str) where
    abbrev types : Build Index Ids Time → List Str
    types build = event_types build.services.audit_log t

    abbrev run_id_added : List Str → List Str → List Str
    run_id_added before events = added (str_eq run_id t) before events

    write-events :
        (build : Build Index Ids Time) (artifact : Artifact) (is_stale : Bool)
        (embedding : List Float)
        → types (
            write_artifact texts upsert provider dump id_gen clock config run_id build artifact
              is_stale embedding)
          ≡ run_id_added (types build) (indexed_events 1)
    unfolding write_artifact
    write-events build artifact is_stale embedding =
        let (indexed_at, time) = clock.now_iso8601 build.services.time in
        event_types-emit_audit (record (build.services) { time = time }) run_id
          (lit "IndexedArtifact") _ indexed_at t

    -- What is written between two builds: a number of artifacts.
    abbrev Writes : Build Index Ids Time → Build Index Ids Time → Type 0
    Writes build after =
        (m : ℕ) × (after.indexed ≡ build.indexed + m)
        × (types after ≡ run_id_added (types build) (indexed_events m))

    added_none : (before : List Str) → before ≡ run_id_added before []
    added_none before = ground (arith, append-nil before)

    round-Writes :
        (build : Build Index Ids Time) (artifact : Artifact)
        → Writes build
            (index_artifact texts upsert provider dump id_gen clock config run_id build artifact)
    unfolding write_artifact
    round-Writes build artifact =
        go (rounds texts upsert provider dump id_gen clock config run_id build artifact)
      where
        go :
            Round texts upsert provider dump id_gen clock config run_id build artifact
              (index_artifact texts upsert provider dump id_gen clock config run_id build artifact)
            → Writes build (
                index_artifact texts upsert provider dump id_gen clock config run_id build artifact)
        go (skips _ o) = rw o (0, omega arith, added_none (types build))
        go (passes _ o) = rw o (0, omega arith, added_none (types build))
        go (writes is_stale embedding o) =
            rw o (1, refl, write-events build artifact is_stale embedding)

    rounds-Writes :
        (build : Build Index Ids Time) (xs : List Artifact)
        → Writes build (index_all texts upsert provider dump id_gen clock config run_id build xs)
    unfolding index_all
    rounds-Writes build [] = (0, omega arith, added_none (types build))
    rounds-Writes build (a ∷ xs) =
        let (m, counted, first) = round-Writes build a in
        let (n, counted_all, rest) =
          rounds-Writes
            (index_artifact texts upsert provider dump id_gen clock config run_id build a) xs in
        (
          m + n,
          omega (arith, counted, counted_all),
          rest
              ∙ rw first (
                  added_twice (str_eq run_id t) (types build) (indexed_events m) (indexed_events n)
                  ∙ ap (run_id_added (types build)) (replicate-add m n (m + n) refl)),
        )

  -- The events of a run that indexes a number of artifacts.
  abbrev pub run_events : ℕ → List Str
  run_events n = lit "IndexRunStarted" ∷ indexed_events n ++ lit "IndexRunCompleted" ∷ []

  module _ (inputs : Inputs) (config : IndexBuildConfig) (store : RunStore) (vectors : Index)
      (services : Services Ids Time) (t : Str) where
    abbrev begun : Str × Str × Build Index Ids Time
    begun = begin texts upsert provider dump id_gen clock config store vectors services

    begin-events :
        event_types begun.2.services.audit_log t
        ≡ added (str_eq begun.0 t) (event_types services.audit_log t) (lit "IndexRunStarted" ∷ [])
    unfolding begin
    begin-events =
        let (started_at, time) = clock.now_iso8601 services.time in
        event_types-emit_audit (record services { time = time }) (next_index_run_id store).0
          (lit "IndexRunStarted") _ started_at t

    begin_counts : begun.2.indexed ≡ 0
    unfolding begin
    begin_counts = refl

    begin_run : begun.0 ≡ (next_index_run_id store).0
    unfolding begin
    begin_run = refl

    complete-events :
        (run_id started_at : Str) (build : Build Index Ids Time)
        → event_types
            (complete texts upsert provider dump id_gen clock config run_id started_at
              build).services.audit_log
            t
          ≡ added
              (str_eq run_id t)
              (event_types build.services.audit_log t)
              (lit "IndexRunCompleted" ∷ [])
    unfolding complete
    complete-events run_id started_at build =
        let (completed_at, time) = clock.now_iso8601 build.services.time in
        event_types-emit_audit (record (build.services) { time = time }) run_id
          (lit "IndexRunCompleted") _ completed_at t

    build-events :
        let (result, build) =
          run_index_build texts upsert provider dump id_gen clock inputs config store vectors
            services in
        event_types build.services.audit_log t
        ≡ added
            (str_eq begun.0 t)
            (event_types services.audit_log t)
            (run_events result.indexed_count)
    unfolding run_index_build
    build-events =
        let own = str_eq begun.0 t in
        let before = event_types services.audit_log t in
        let (m, counted, written) =
          rounds-Writes config begun.0 t begun.2 (artifacts inputs config.scope) in
        let looped =
          index_all texts upsert provider dump id_gen clock config begun.0 begun.2
            (artifacts inputs config.scope) in
        let same : m ≡ looped.indexed = omega (arith, counted, begin_counts) in
        complete-events begun.0 begun.1 looped
        ∙ ap (λ x. added own x (lit "IndexRunCompleted" ∷ []))
            (written
              ∙ ap (λ x. added own x (indexed_events m)) begin-events
              ∙ added_twice own before (lit "IndexRunStarted" ∷ []) (indexed_events m))
        ∙ added_twice own before (lit "IndexRunStarted" ∷ indexed_events m)
            (lit "IndexRunCompleted" ∷ [])
        ∙ ap (λ n. added own before (run_events n)) same

  -- A run of the pipeline adds `IndexBuildStarted` and `IndexBuildCompleted` to its own trace, and between
  -- the two it adds to the trace that is named as the new index run `IndexRunStarted`, one
  -- `IndexedArtifact` for each artifact that the response counts as indexed, and `IndexRunCompleted`.
  -- It adds nothing to any other trace.
  pub index_trail :
      (req : IndexBuildPipelineRequest) (provider_id : Str) (inputs : Inputs) (store : RunStore)
      (vectors : Index) (services : Services Ids Time) (t : Str)
      → let (response, after_store, after_vectors, after) =
          run_index_build_pipeline texts upsert provider dump id_gen clock req provider_id inputs
            store vectors services in
        let own = str_eq response.trace_id t in
        let run = str_eq (next_index_run_id store).0 t in
        event_types after.audit_log t
        ≡ added own
            (added run
              (added own (event_types services.audit_log t) (lit "IndexBuildStarted" ∷ []))
              (run_events response.indexed_count))
            (lit "IndexBuildCompleted" ∷ [])
  unfolding run_index_build_pipeline
  index_trail req provider_id inputs store vectors services t =
      let (fresh, ids) = id_gen.next services.ids (lit "trace") in
      let trace_id = trace_or req.trace_id fresh in
      let own = str_eq trace_id t in
      let start : Services Ids Time = record services { ids = ids } in
      let started =
        emit dump id_gen clock start trace_id (lit "IndexBuildStarted")
          (build_started_payload req.scope) [] in
      let config = build_config req.scope provider_id in
      let (result, build) =
        run_index_build texts upsert provider dump id_gen clock inputs config store vectors
          started in
      event_types-emit dump id_gen clock build.services trace_id (lit "IndexBuildCompleted") _ [] t
      ∙ ap (λ x. added own x (lit "IndexBuildCompleted" ∷ []))
          (build-events inputs config store vectors started t
            ∙ rw (begin_run inputs config store vectors started t) (
                ap
                  (λ x.
                    added (str_eq (next_index_run_id store).0 t) x
                      (run_events result.indexed_count))
                  (event_types-emit dump id_gen clock start trace_id (lit "IndexBuildStarted") _ []
                    t)))
