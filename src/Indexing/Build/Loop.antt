-- ===== src/Indexing/Build/Loop.antt =====
-- What the loops of an index build leave in the store of runs.
use career_coordination_mcp.Prelude.{
  ℕ, ◌+◌, ◌≡◌, refl, ◌∙◌, Str, Bool, true, Option, List, [], ◌∷◌, ◌||◌, is_empty, All, arith,
  Bool-cases, inl, inr,
}
use career_coordination_mcp.Matching.Candidates.{EmbeddingProvider}
use career_coordination_mcp.Storage.Audit.{EventJson}
use career_coordination_mcp.App.Services.{IdGenerator, Clock}
use career_coordination_mcp.Indexing.RunStore.{Query, get_last_source_hash}
use career_coordination_mcp.Indexing.Build.{
  IndexBuildConfig, Artifact, Texts, Build, query_of, source_hash, is_current, index_artifact,
  index_all,
}
use career_coordination_mcp.Indexing.Build.Rounds.{
  IsOpen, Consistent, settles, round, round-runs, round-last, round-settles, round-tested,
  round-IsOpen, settles-Passes, settled, tested, Passes, Agree-of,
}

module _ {Float Index Ids Time : Type 0} (texts : Texts Float)
    (upsert : Index → Str → List Float → Str → Index) (provider : EmbeddingProvider Float)
    (dump : EventJson → Str) (id_gen : IdGenerator Ids) (clock : Clock Time)
    (config : IndexBuildConfig) (run_id : Str) where
  abbrev all_rounds : Build Index Ids Time → List Artifact → Build Index Ids Time
  all_rounds build artifacts =
      index_all texts upsert provider dump id_gen clock config run_id build artifacts

  pub rounds-runs :
      (build : Build Index Ids Time) (artifacts : List Artifact)
      → (all_rounds build artifacts).store.runs ≡ build.store.runs
  unfolding index_all
  rounds-runs build [] = refl
  rounds-runs build (artifact ∷ artifacts) =
      rounds-runs (round texts upsert provider dump id_gen clock config run_id build artifact)
        artifacts
      ∙ round-runs texts upsert provider dump id_gen clock config run_id build artifact

  pub rounds-last :
      (build : Build Index Ids Time) (artifacts : List Artifact) (q : Query)
      → IsOpen run_id build.store
      → get_last_source_hash (all_rounds build artifacts).store q
        ≡ get_last_source_hash build.store q
  unfolding index_all
  rounds-last build [] q h = refl
  rounds-last build (artifact ∷ artifacts) q h =
      rounds-last (round texts upsert provider dump id_gen clock config run_id build artifact)
        artifacts q
        (round-IsOpen texts upsert provider dump id_gen clock config run_id build artifact h)
      ∙ round-last texts upsert provider dump id_gen clock config run_id build artifact q h

  pub rounds-tested :
      (text_of : Str → Str → Str) (test : Option Str → Option Str → Bool)
      (build : Build Index Ids Time) (artifacts : List Artifact) (other : Artifact)
      → IsOpen run_id build.store
      → Consistent text_of artifacts
      → other.canonical_text ≡ text_of other.artifact_type other.artifact_id
      → Passes texts upsert provider dump id_gen clock config run_id other test
      → tested texts upsert provider dump id_gen clock config run_id test build other ≡ true
      → tested texts upsert provider dump id_gen clock config run_id test
          (all_rounds build artifacts)
          other
        ≡ true
  unfolding index_all
  rounds-tested text_of test build [] other h c e passing old = old
  rounds-tested text_of test build (artifact ∷ artifacts) other h c e passing old =
      rounds-tested text_of test
        (round texts upsert provider dump id_gen clock config run_id build artifact) artifacts other
        (round-IsOpen texts upsert provider dump id_gen clock config run_id build artifact h) c.1 e
        passing
        (round-tested texts upsert provider dump id_gen clock config run_id test build artifact
          other h (Agree-of text_of artifact other c.0 e) passing old)

  -- After the loops every artifact that they read is settled.
  pub rounds-settle :
      (text_of : Str → Str → Str) (build : Build Index Ids Time) (artifacts : List Artifact)
      → IsOpen run_id build.store
      → Consistent text_of artifacts
      → All
          (λ a.
            settled texts upsert provider dump id_gen clock config run_id
              (all_rounds build artifacts)
              a
            ≡ true)
          artifacts
  unfolding index_all
  rounds-settle text_of build [] h c = tt
  rounds-settle text_of build (artifact ∷ artifacts) h c = (
    rounds-tested text_of (settles provider artifact)
        (round texts upsert provider dump id_gen clock config run_id build artifact) artifacts
        artifact
        (round-IsOpen texts upsert provider dump id_gen clock config run_id build artifact h) c.1
        c.0 (settles-Passes texts upsert provider dump id_gen clock config run_id artifact)
        (round-settles texts upsert provider dump id_gen clock config run_id build artifact h),
    rounds-settle text_of
        (round texts upsert provider dump id_gen clock config run_id build artifact) artifacts
        (round-IsOpen texts upsert provider dump id_gen clock config run_id build artifact h) c.1,
  )

  round-idle :
      (build : Build Index Ids Time) (artifact : Artifact)
      → (is_empty (provider.embed_text artifact.canonical_text)
          || is_current
              (get_last_source_hash build.store (query_of config artifact))
              (source_hash artifact))
        ≡ true
      → (n : ℕ) × (round texts upsert provider dump id_gen clock config run_id build artifact
          ≡ record build { skipped = n })
  unfolding index_artifact
  round-idle build artifact h =
      elim (Bool-cases (
        is_current (get_last_source_hash build.store (query_of config artifact))
          (source_hash artifact))) [
            | inl current ↦ (build.skipped + 1, rw current refl)
            | inr outdated ↦
                let nothing : is_empty (provider.embed_text artifact.canonical_text) ≡ true =
                  ground (arith, h, outdated) in
                (build.skipped, rw (outdated, nothing) refl)
          ]

  -- Where every artifact has no vector or a current hash, the loops only count.
  pub rounds-idle :
      (build : Build Index Ids Time) (artifacts : List Artifact)
      → All
          (λ a.
            (is_empty (provider.embed_text a.canonical_text)
              || is_current (get_last_source_hash build.store (query_of config a)) (source_hash a))
            ≡ true)
          artifacts
      → (n : ℕ) × (all_rounds build artifacts ≡ record build { skipped = n })
  unfolding index_all
  rounds-idle build [] h = (build.skipped, refl)
  rounds-idle build (artifact ∷ artifacts) h =
      let (m, once) = round-idle build artifact h.0 in
      let (n, all) = rounds-idle (record build { skipped = m }) artifacts h.1 in (n, rw once all)
