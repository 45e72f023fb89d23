-- ===== src/Indexing/Build/Again.antt =====
-- A second build of the same sources.
use career_coordination_mcp.Prelude.{◌≡◌, ap, Str, true, List, [], ◌∷◌, ◌||◌, is_empty, All}
use career_coordination_mcp.Matching.Candidates.{EmbeddingProvider}
use career_coordination_mcp.Storage.Audit.{EventJson}
use career_coordination_mcp.App.Services.{IdGenerator, Clock, Services}
use career_coordination_mcp.Indexing.RunStore.{RunStore, Query, upsert_run, get_last_source_hash}
use career_coordination_mcp.Indexing.RunStore.Last.{AllBefore}
use career_coordination_mcp.Indexing.RunStore.Sound.{IsSound}
use career_coordination_mcp.Indexing.Build.{
  IndexBuildConfig, IndexBuildResult, Artifact, Inputs, Texts, Build, query_of, source_hash,
  is_current, artifacts, index_all, begin, complete, run_index_build,
}
use career_coordination_mcp.Indexing.Build.Loop.{rounds-idle}
use career_coordination_mcp.Indexing.Build.Rounds.{Consistent}
use career_coordination_mcp.Indexing.Build.Opened.{opened, opened-last, build-IsSound}
use career_coordination_mcp.Indexing.Build.Settled.{IsCurrent, build_settles}

module _ {Float Index Ids Time : Type 0} (texts : Texts Float)
    (upsert : Index → Str → List Float → Str → Index) (provider : EmbeddingProvider Float)
    (dump : EventJson → Str) (id_gen : IdGenerator Ids) (clock : Clock Time) (inputs : Inputs)
    (config : IndexBuildConfig) where
  abbrev all : List Artifact
  all = artifacts inputs config.scope

  abbrev run : RunStore → Index → Services Ids Time → IndexBuildResult × Build Index Ids Time
  run store vectors services =
      run_index_build texts upsert provider dump id_gen clock inputs config store vectors services

  current_moved :
      (before after : RunStore)
      → ((q : Query) → get_last_source_hash after q ≡ get_last_source_hash before q)
      → (xs : List Artifact)
      → All
          (λ a.
            (is_empty (provider.embed_text a.canonical_text)
              || is_current (get_last_source_hash before (query_of config a)) (source_hash a))
            ≡ true)
          xs
      → All
          (λ a.
            (is_empty (provider.embed_text a.canonical_text)
              || is_current (get_last_source_hash after (query_of config a)) (source_hash a))
            ≡ true)
          xs
  current_moved before after same [] h = tt
  current_moved before after same (a ∷ xs) h =
      (rw (same (query_of config a)) h.0, current_moved before after same xs h.1)

  abbrev looped : RunStore → Index → Services Ids Time → Build Index Ids Time
  looped store vectors services =
      index_all texts upsert provider dump id_gen clock config
        (opened texts upsert provider dump id_gen clock config store vectors services).0
        (opened texts upsert provider dump id_gen clock config store vectors services).2 all

  -- A build from such a store writes no vector.
  build_idle :
      (store : RunStore) (vectors : Index) (services : Services Ids Time)
      → IsSound store
      → IsCurrent texts upsert provider dump id_gen clock inputs config store
      → let (result, after) = run store vectors services in
        (result.indexed_count ≡ 0)
        × (result.stale_count ≡ 0)
        × (after.vectors ≡ vectors)
        × (after.store.entries ≡ store.entries)
  unfolding run_index_build begin complete upsert_run
  build_idle store vectors services sound current =
      let (n, same) =
        rounds-idle texts upsert provider dump id_gen clock config
          (opened texts upsert provider dump id_gen clock config store vectors services).0
          (opened texts upsert provider dump id_gen clock config store vectors services).2 all
          (current_moved store
            (opened texts upsert provider dump id_gen clock config store vectors services).2.store
            (λ q.
              opened-last texts upsert provider dump id_gen clock config store vectors services q
                sound)
            all current) in
      (
        ap (λ b. b.indexed) same,
        ap (λ b. b.stale) same,
        ap (λ b. b.vectors) same,
        ap (λ b. b.store.entries) same,
      )

  -- A second build of the same sources with the same configuration indexes nothing: it writes no vector
  -- and no entry and finds nothing stale. The run identifiers that the counter has not reached must be
  -- free and every entry of the store must belong to a run, every completed run must be earlier than what
  -- the clock reads, and the artifacts of one type and identifier must have one text.
  pub second_build_idle :
      (text_of : Str → Str → Str) (store : RunStore) (vectors : Index)
      (services : Services Ids Time)
      → IsSound store
      → ((time : Time) → AllBefore store.runs (clock.now_iso8601 time).0)
      → Consistent text_of all
      → let first = (run store vectors services).1 in
        let (result, second) = run first.store first.vectors first.services in
        (result.indexed_count ≡ 0)
        × (result.stale_count ≡ 0)
        × (second.vectors ≡ first.vectors)
        × (second.store.entries ≡ first.store.entries)
  second_build_idle text_of store vectors services sound before consistent =
      build_idle _ _ _
        (build-IsSound texts upsert provider dump id_gen clock inputs config store vectors services
          sound)
        (build_settles texts upsert provider dump id_gen clock inputs config text_of store vectors
          services sound before consistent)
