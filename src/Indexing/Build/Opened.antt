-- ===== src/Indexing/Build/Opened.antt =====
-- What the start of an index build leaves in the store of runs, and that a build keeps the store sound.
use career_coordination_mcp.Prelude.{
  ◌+◌, ◌≡◌, refl, ◌∙◌, Str, some, List, [], ◌∷◌, str_eq_refl, arith,
}
use career_coordination_mcp.Prelude.StringMap.{find, assign, find-assign}
use career_coordination_mcp.Matching.Candidates.{EmbeddingProvider}
use career_coordination_mcp.Storage.Audit.{EventJson}
use career_coordination_mcp.App.Services.{IdGenerator, Clock, Services}
use career_coordination_mcp.Indexing.RunStore.{
  RunStore, Query, next_index_run_id, upsert_run, upsert_entry, get_last_source_hash, run_id_of,
}
use career_coordination_mcp.Indexing.RunStore.Last.{last-upsert_run}
use career_coordination_mcp.Indexing.RunStore.Sound.{
  IsSound, next_index_run_id-IsSound, upsert_entry-IsSound, upsert_run-IsSound,
}
use career_coordination_mcp.Indexing.Build.{
  IndexBuildConfig, IndexBuildResult, Artifact, Inputs, Texts, Build, artifacts, write_artifact,
  index_artifact, index_all, started_run, begin, complete, run_index_build,
}
use career_coordination_mcp.Indexing.Build.Rounds.{Round, skips, passes, writes, rounds, IsOpen}

module _ {Float Index Ids Time : Type 0} (texts : Texts Float)
    (upsert : Index → Str → List Float → Str → Index) (provider : EmbeddingProvider Float)
    (dump : EventJson → Str) (id_gen : IdGenerator Ids) (clock : Clock Time)
    (config : IndexBuildConfig) where
  abbrev pub opened : RunStore → Index → Services Ids Time → Str × Str × Build Index Ids Time
  opened store vectors services =
      begin texts upsert provider dump id_gen clock config store vectors services

  pub opened-runs :
      (store : RunStore) (vectors : Index) (services : Services Ids Time)
      → (opened store vectors services).2.store.runs
        ≡ assign store.runs
            (run_id_of (store.counter + 1))
            (started_run config (run_id_of (store.counter + 1)) (opened store vectors services).1)
  unfolding begin upsert_run next_index_run_id
  opened-runs store vectors services = refl

  pub opened-IsOpen :
      (store : RunStore) (vectors : Index) (services : Services Ids Time)
      → IsOpen (opened store vectors services).0 (opened store vectors services).2.store
  unfolding begin upsert_run next_index_run_id
  opened-IsOpen store vectors services =
      let found : find (opened store vectors services).2.store.runs (run_id_of (store.counter + 1))
          ≡ some (
              started_run config (run_id_of (store.counter + 1))
                (clock.now_iso8601 services.time).0) =
        find-assign store.runs (run_id_of (store.counter + 1)) (run_id_of (store.counter + 1))
          (started_run config (run_id_of (store.counter + 1)) (clock.now_iso8601 services.time).0)
        ∙ rw (str_eq_refl (run_id_of (store.counter + 1))) refl in
      record { inactive = rw found refl; present = rw found refl }

  -- The start of a run changes no last hash.
  pub opened-last :
      (store : RunStore) (vectors : Index) (services : Services Ids Time) (q : Query)
      → IsSound store
      → get_last_source_hash (opened store vectors services).2.store q
        ≡ get_last_source_hash store q
  unfolding begin next_index_run_id get_last_source_hash
  opened-last store vectors services q sound =
      last-upsert_run (record store { counter = store.counter + 1 }) _ q
        (rw (sound.fresh (store.counter + 1) (omega arith)) refl) refl

module _ {Float Index Ids Time : Type 0} (texts : Texts Float)
    (upsert : Index → Str → List Float → Str → Index) (provider : EmbeddingProvider Float)
    (dump : EventJson → Str) (id_gen : IdGenerator Ids) (clock : Clock Time) (inputs : Inputs)
    (config : IndexBuildConfig) where
  abbrev all : List Artifact
  all = artifacts inputs config.scope

  abbrev run : RunStore → Index → Services Ids Time → IndexBuildResult × Build Index Ids Time
  run store vectors services =
      run_index_build texts upsert provider dump id_gen clock inputs config store vectors services

  abbrev looped : RunStore → Index → Services Ids Time → Build Index Ids Time
  looped store vectors services =
      index_all texts upsert provider dump id_gen clock config
        (opened texts upsert provider dump id_gen clock config store vectors services).0
        (opened texts upsert provider dump id_gen clock config store vectors services).2 all

  round-IsSound :
      (run_id : Str) (build : Build Index Ids Time) (artifact : Artifact)
      → IsSound build.store
      → let after =
          index_artifact texts upsert provider dump id_gen clock config run_id build artifact in
        IsSound after.store × (after.store.counter ≡ build.store.counter)
  unfolding write_artifact upsert_entry
  round-IsSound run_id build artifact h =
      go (rounds texts upsert provider dump id_gen clock config run_id build artifact)
    where
      go :
          Round texts upsert provider dump id_gen clock config run_id build artifact
            (index_artifact texts upsert provider dump id_gen clock config run_id build artifact)
          → let after =
              index_artifact texts upsert provider dump id_gen clock config run_id build artifact in
            IsSound after.store × (after.store.counter ≡ build.store.counter)
      go (skips _ o) = rw o (h, refl)
      go (passes _ o) = rw o (h, refl)
      go (writes is_stale embedding o) = rw o (upsert_entry-IsSound build.store _ h, ground arith)

  rounds-IsSound :
      (run_id : Str) (build : Build Index Ids Time) (xs : List Artifact)
      → IsSound build.store
      → let after = index_all texts upsert provider dump id_gen clock config run_id build xs in
        IsSound after.store × (after.store.counter ≡ build.store.counter)
  unfolding index_all
  rounds-IsSound run_id build [] h = (h, refl)
  rounds-IsSound run_id build (a ∷ xs) h =
      let (sound, same) = round-IsSound run_id build a h in
      let (sounds, all_same) =
        rounds-IsSound run_id
          (index_artifact texts upsert provider dump id_gen clock config run_id build a) xs sound in
      (sounds, all_same ∙ same)

  pub build-IsSound :
      (store : RunStore) (vectors : Index) (services : Services Ids Time)
      → IsSound store
      → IsSound (run store vectors services).1.store
  unfolding run_index_build complete begin
  build-IsSound store vectors services sound =
      let begun : IsSound
          (opened texts upsert provider dump id_gen clock config store vectors services).2.store =
        upsert_run-IsSound (next_index_run_id store).1 _ (store.counter + 1) refl (omega arith)
          (next_index_run_id-IsSound store sound) in
      let (looped_sound, same) =
        rounds-IsSound
          (opened texts upsert provider dump id_gen clock config store vectors services).0
          (opened texts upsert provider dump id_gen clock config store vectors services).2 all
          begun in
      upsert_run-IsSound (looped store vectors services).store _ (store.counter + 1) refl
        (omega (arith, same)) looped_sound
