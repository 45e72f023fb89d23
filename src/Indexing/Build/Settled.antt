-- ===== src/Indexing/Build/Settled.antt =====
-- What an index build leaves for the next one.
use career_coordination_mcp.Prelude.{
  ◌+◌, ◌≡◌, refl, Str, Bool, true, Option, none, some, List, [], ◌∷◌, ◌||◌, str_eq, str_eq_refl,
  is_none, is_empty, All, arith, Bool-cases, inl, inr,
}
use career_coordination_mcp.Prelude.StringMap.{find, assign, find-assign}
use career_coordination_mcp.Matching.Candidates.{EmbeddingProvider}
use career_coordination_mcp.Storage.Audit.{EventJson}
use career_coordination_mcp.App.Services.{IdGenerator, Clock, Services}
use career_coordination_mcp.Indexing.RunStore.{
  RunStore, next_index_run_id, upsert_run, get_last_source_hash, run_id_of, run_fits,
}
use career_coordination_mcp.Indexing.RunStore.Last.{own, own_or, AllBefore, last-completed}
use career_coordination_mcp.Indexing.RunStore.Sound.{IsSound, own_absent}
use career_coordination_mcp.Indexing.Build.{
  IndexBuildConfig, IndexBuildResult, Artifact, Inputs, Texts, Build, query_of, source_hash,
  is_current, artifacts, index_all, started_run, completed_run, begin, complete, run_index_build,
}
use career_coordination_mcp.Indexing.Build.Loop.{rounds-runs, rounds-settle, rounds-tested}
use career_coordination_mcp.Indexing.Build.Rounds.{Consistent, settles}
use career_coordination_mcp.Indexing.Build.Opened.{opened, opened-runs, opened-IsOpen}

module _ {Float Index Ids Time : Type 0} (texts : Texts Float)
    (upsert : Index → Str → List Float → Str → Index) (provider : EmbeddingProvider Float)
    (dump : EventJson → Str) (id_gen : IdGenerator Ids) (clock : Clock Time) (inputs : Inputs)
    (config : IndexBuildConfig) where
  abbrev all : List Artifact
  all = artifacts inputs config.scope

  abbrev run : RunStore → Index → Services Ids Time → IndexBuildResult × Build Index Ids Time
  run store vectors services =
      run_index_build texts upsert provider dump id_gen clock inputs config store vectors services

  -- The store has a current hash of every artifact with a vector.
  abbrev pub IsCurrent : RunStore → Type 0
  IsCurrent store =
      All
        (λ a.
          (is_empty (provider.embed_text a.canonical_text)
            || is_current (get_last_source_hash store (query_of config a)) (source_hash a))
          ≡ true)
        all

  abbrev looped : RunStore → Index → Services Ids Time → Build Index Ids Time
  looped store vectors services =
      index_all texts upsert provider dump id_gen clock config
        (opened texts upsert provider dump id_gen clock config store vectors services).0
        (opened texts upsert provider dump id_gen clock config store vectors services).2 all

  -- The own hash of an artifact is none or its current one.
  abbrev clean : Artifact → Option Str → Option Str → Bool
  clean a last mine = is_none mine || is_current mine (source_hash a)

  settled_current :
      (a : Artifact) (last mine : Option Str)
      → settles provider a last mine ≡ true
      → clean a last mine ≡ true
      → (is_empty (provider.embed_text a.canonical_text)
          || is_current (own_or mine last) (source_hash a))
        ≡ true
  settled_current a last none h k = ground (arith, h)
  settled_current a last (some x) h k = ground (arith, k)

  module _ (text_of : Str → Str → Str) (store : RunStore) (vectors : Index)
      (services : Services Ids Time) (sound : IsSound store)
      (before : (time : Time) → AllBefore store.runs (clock.now_iso8601 time).0)
      (consistent : Consistent text_of all) where
    abbrev ended : Build Index Ids Time
    ended = looped store vectors services

    abbrev run_id : Str
    run_id = (opened texts upsert provider dump id_gen clock config store vectors services).0

    looped-before : (time : Time) → AllBefore ended.store.runs (clock.now_iso8601 time).0
    looped-before time id r found done =
        let runs_now : find
              (opened texts upsert provider dump id_gen clock config store vectors
                services).2.store.runs
              id
            ≡ some r =
          rw
            (rounds-runs texts upsert provider dump id_gen clock config run_id
              (opened texts upsert provider dump id_gen clock config store vectors services).2 all)
            at found in
        let assigned : find
              (assign store.runs (run_id_of (store.counter + 1)) (
                started_run config (run_id_of (store.counter + 1))
                  (opened texts upsert provider dump id_gen clock config store vectors services).1))
              id
            ≡ some r =
          rw (opened-runs texts upsert provider dump id_gen clock config store vectors services) at
            runs_now in
        elim (Bool-cases (str_eq (run_id_of (store.counter + 1)) id)) [
          | inl same ↦
              let new : some (
                    started_run config (run_id_of (store.counter + 1))
                      (opened texts upsert provider dump id_gen clock config store vectors
                        services).1)
                  ≡ some r =
                rw (find-assign, same) at assigned in
              cc (done, new)
          | inr other ↦
              let old : find store.runs id ≡ some r = rw (find-assign, other) at assigned in
              before time id r old done
        ]

    opened-clean :
        (a : Artifact)
        → clean a
            (get_last_source_hash
              (opened texts upsert provider dump id_gen clock config store vectors services).2.store
              (query_of config a))
            (own
              (opened texts upsert provider dump id_gen clock config store vectors
                services).2.store.entries
              run_id
              a.artifact_type
              a.artifact_id)
          ≡ true
    unfolding begin next_index_run_id upsert_run
    opened-clean a =
        rw
          (own_absent store.runs store.entries (run_id_of (store.counter + 1)) a.artifact_type
            a.artifact_id (sound.fresh (store.counter + 1) (omega arith)) sound.keyed)
          refl

    looped-clean :
        (a : Artifact)
        → a.canonical_text ≡ text_of a.artifact_type a.artifact_id
        → clean a
            (get_last_source_hash ended.store (query_of config a))
            (own ended.store.entries run_id a.artifact_type a.artifact_id)
          ≡ true
    looped-clean a e =
        rounds-tested texts upsert provider dump id_gen clock config run_id text_of (clean a)
          (opened texts upsert provider dump id_gen clock config store vectors services).2 all a
          (opened-IsOpen texts upsert provider dump id_gen clock config store vectors services)
          consistent e (λ last. ground (arith, str_eq_refl (source_hash a))) (opened-clean a)

    completed-current :
        (time : Time) (xs : List Artifact)
        → Consistent text_of xs
        → All
            (λ a.
              settles provider a
                (get_last_source_hash ended.store (query_of config a))
                (own ended.store.entries run_id a.artifact_type a.artifact_id)
              ≡ true)
            xs
        → All
            (λ a.
              (is_empty (provider.embed_text a.canonical_text)
                || is_current
                    (get_last_source_hash
                      (upsert_run ended.store (
                        completed_run texts upsert provider dump id_gen clock config run_id
                          (opened texts upsert provider dump id_gen clock config store vectors
                            services).1
                          (clock.now_iso8601 time).0
                          ended))
                      (query_of config a))
                    (source_hash a))
              ≡ true)
            xs
    completed-current time [] c h = tt
    completed-current time (a ∷ xs) c h =
        let same =
          rounds-runs texts upsert provider dump id_gen clock config run_id
            (opened texts upsert provider dump id_gen clock config store vectors services).2 all in
        let fits : run_fits (query_of config a) (
              completed_run texts upsert provider dump id_gen clock config run_id
                (opened texts upsert provider dump id_gen clock config store vectors services).1
                (clock.now_iso8601 time).0 ended)
            ≡ true =
          ground (
            arith,
            str_eq_refl config.provider_id,
            str_eq_refl config.model_id,
            str_eq_refl config.prompt_version,
          ) in
        (
          rw
              (last-completed ended.store
                (completed_run texts upsert provider dump id_gen clock config run_id
                  (opened texts upsert provider dump id_gen clock config store vectors services).1
                  (clock.now_iso8601 time).0 ended)
                (query_of config a) (clock.now_iso8601 time).0 refl fits
                (rw same (
                  (opened-IsOpen texts upsert provider dump id_gen clock config store vectors
                    services).inactive))
                (looped-before time))
              (settled_current a (get_last_source_hash ended.store (query_of config a))
                (own ended.store.entries run_id a.artifact_type a.artifact_id) h.0
                (looped-clean a c.0)),
          completed-current time xs c.1 h.1,
        )

  -- A build leaves a store of that kind.
  pub build_settles :
      (text_of : Str → Str → Str) (store : RunStore) (vectors : Index)
      (services : Services Ids Time)
      → IsSound store
      → ((time : Time) → AllBefore store.runs (clock.now_iso8601 time).0)
      → Consistent text_of all
      → IsCurrent (run store vectors services).1.store
  unfolding run_index_build complete
  build_settles text_of store vectors services sound before consistent =
      completed-current text_of store vectors services sound before consistent
        (looped store vectors services).services.time all consistent
        (rounds-settle texts upsert provider dump id_gen clock config
          (opened texts upsert provider dump id_gen clock config store vectors services).0 text_of
          (opened texts upsert provider dump id_gen clock config store vectors services).2 all
          (opened-IsOpen texts upsert provider dump id_gen clock config store vectors services)
          consistent)
