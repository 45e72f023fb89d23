-- ===== src/Indexing/Build/Rounds.antt =====
-- What a round of an index build leaves in the store of runs.
use career_coordination_mcp.Prelude.{
  ◌+◌, ◌≡◌, refl, ◌∙◌, sym, ap, Str, Bool, true, false, not, Option, some, List, [], ◌∷◌, ◌||◌,
  ◌&&◌, if◌then◌else◌, str_eq, str_eq_iff, str_eq_refl, is_none, is_empty, All, arith, Bool-cases,
  inl, inr,
}
use career_coordination_mcp.Prelude.StringMap.{find}
use career_coordination_mcp.Core.Hashing.{stable_hash64_hex}
use career_coordination_mcp.Matching.Candidates.{EmbeddingProvider}
use career_coordination_mcp.Storage.Audit.{EventJson}
use career_coordination_mcp.App.Services.{IdGenerator, Clock}
use career_coordination_mcp.Indexing.Run.{IndexEntry}
use career_coordination_mcp.Indexing.RunStore.{
  RunStore, Query, upsert_entry, put_entry, get_last_source_hash,
}
use career_coordination_mcp.Indexing.RunStore.Last.{is_inactive, own, last-upsert_entry}
use career_coordination_mcp.Indexing.Build.{
  IndexBuildConfig, Artifact, Texts, Build, query_of, source_hash, is_current, write_artifact,
  index_artifact,
}

own-put_entry :
    (entries : List IndexEntry) (entry : IndexEntry) (artifact_type artifact_id : Str)
    → own (put_entry entries entry) entry.run_id artifact_type artifact_id ≡ (
        if str_eq entry.artifact_type artifact_type && str_eq entry.artifact_id artifact_id
        then some entry.source_hash
        else own entries entry.run_id artifact_type artifact_id)
unfolding put_entry
own-put_entry [] entry artifact_type artifact_id = rw str_eq_refl refl
own-put_entry (e ∷ entries) entry artifact_type artifact_id = ground (
  arith,
  own-put_entry entries entry artifact_type artifact_id,
  str_eq_refl entry.run_id,
  str_eq_iff e.artifact_type entry.artifact_type,
  str_eq_iff e.artifact_id entry.artifact_id,
  str_eq_iff entry.artifact_type artifact_type,
  str_eq_iff entry.artifact_id artifact_id,
  str_eq_iff e.artifact_type artifact_type,
  str_eq_iff e.artifact_id artifact_id,
)

-- The run is in the store, and is not completed.
pub record IsOpen (run_id : Str) (store : RunStore) : Type 0 where
  pub inactive : is_inactive (find store.runs run_id) ≡ true
  pub present : is_none (find store.runs run_id) ≡ false

-- The texts of artifacts are a function of their types and identifiers.
abbrev pub Consistent : (Str → Str → Str) → List Artifact → Type 0
Consistent text_of artifacts =
    All (λ a. a.canonical_text ≡ text_of a.artifact_type a.artifact_id) artifacts

-- The next build finds nothing to do for the artifact: it has no vector, or its hash was current
-- before the run, or is that of its entry in the run.
abbrev pub settles :
    {Float : Type 0} → EmbeddingProvider Float → Artifact → Option Str → Option Str → Bool
settles provider artifact last mine =
    is_empty (provider.embed_text artifact.canonical_text)
    || (is_current last (source_hash artifact) || is_current mine (source_hash artifact))

-- Two records of one artifact have one text.
abbrev pub Agree : Artifact → Artifact → Type 0
Agree a b =
    (str_eq a.artifact_type b.artifact_type && str_eq a.artifact_id b.artifact_id) ≡ true
    → a.canonical_text ≡ b.canonical_text

pub Agree-of :
    (text_of : Str → Str → Str) (a b : Artifact)
    → a.canonical_text ≡ text_of a.artifact_type a.artifact_id
    → b.canonical_text ≡ text_of b.artifact_type b.artifact_id
    → Agree a b
Agree-of text_of a b p q same =
    let types : a.artifact_type ≡ b.artifact_type =
      (str_eq_iff a.artifact_type b.artifact_type).0 (ground (arith, same)) in
    let ids : a.artifact_id ≡ b.artifact_id =
      (str_eq_iff a.artifact_id b.artifact_id).0 (ground (arith, same)) in
    p ∙ rw (types, ids) (sym q)

module _ {Float Index Ids Time : Type 0} (texts : Texts Float)
    (upsert : Index → Str → List Float → Str → Index) (provider : EmbeddingProvider Float)
    (dump : EventJson → Str) (id_gen : IdGenerator Ids) (clock : Clock Time)
    (config : IndexBuildConfig) (run_id : Str) where
  abbrev pub round : Build Index Ids Time → Artifact → Build Index Ids Time
  round build artifact =
      index_artifact texts upsert provider dump id_gen clock config run_id build artifact

  -- The ways in which a round ends.
  pub data Round (build : Build Index Ids Time) (artifact : Artifact) (after : Build Index Ids Time)
      : Type 0 where
    skips :
        is_current
            (get_last_source_hash build.store (query_of config artifact))
            (source_hash artifact)
          ≡ true
        → after ≡ record build { skipped = build.skipped + 1 }
        → Round build artifact after
    passes :
        is_empty (provider.embed_text artifact.canonical_text) ≡ true
        → after ≡ build
        → Round build artifact after
    writes :
        (is_stale : Bool) (embedding : List Float)
        → after
          ≡ write_artifact texts upsert provider dump id_gen clock config run_id build artifact
              is_stale embedding
        → Round build artifact after

  pub rounds :
      (build : Build Index Ids Time) (artifact : Artifact)
      → Round build artifact (round build artifact)
  unfolding index_artifact
  rounds build artifact =
      elim (Bool-cases (
        is_current (get_last_source_hash build.store (query_of config artifact))
          (source_hash artifact))) [
            | inl current ↦ skips current (rw current refl)
            | inr outdated ↦
                elim (Bool-cases (is_empty (provider.embed_text artifact.canonical_text))) [
                  | inl nothing ↦ passes nothing (rw (outdated, nothing) refl)
                  | inr something ↦
                      writes
                        (not
                          (is_none (get_last_source_hash build.store (query_of config artifact))))
                        (provider.embed_text artifact.canonical_text)
                        (rw (outdated, something) refl)
                ]
          ]

  write-runs :
      (build : Build Index Ids Time) (artifact : Artifact) (is_stale : Bool)
      (embedding : List Float)
      → (write_artifact texts upsert provider dump id_gen clock config run_id build artifact
          is_stale embedding).store.runs
        ≡ build.store.runs
  unfolding write_artifact upsert_entry
  write-runs build artifact is_stale embedding = ground arith

  write-last :
      (build : Build Index Ids Time) (artifact : Artifact) (is_stale : Bool)
      (embedding : List Float) (q : Query)
      → IsOpen run_id build.store
      → get_last_source_hash
          (write_artifact texts upsert provider dump id_gen clock config run_id build artifact
            is_stale embedding).store
          q
        ≡ get_last_source_hash build.store q
  unfolding write_artifact
  write-last build artifact is_stale embedding q h = last-upsert_entry build.store _ q h.inactive

  pub round-runs :
      (build : Build Index Ids Time) (artifact : Artifact)
      → (round build artifact).store.runs ≡ build.store.runs
  round-runs build artifact = go (rounds build artifact)
    where
      go :
          Round build artifact (round build artifact)
          → (round build artifact).store.runs ≡ build.store.runs
      go (skips _ o) = rw o refl
      go (passes _ o) = rw o refl
      go (writes is_stale embedding o) = rw o (write-runs build artifact is_stale embedding)

  pub round-last :
      (build : Build Index Ids Time) (artifact : Artifact) (q : Query)
      → IsOpen run_id build.store
      → get_last_source_hash (round build artifact).store q ≡ get_last_source_hash build.store q
  round-last build artifact q h = go (rounds build artifact)
    where
      go :
          Round build artifact (round build artifact)
          → get_last_source_hash (round build artifact).store q ≡ get_last_source_hash build.store q
      go (skips _ o) = rw o refl
      go (passes _ o) = rw o refl
      go (writes is_stale embedding o) = rw o (write-last build artifact is_stale embedding q h)

  abbrev pub own_hash : Build Index Ids Time → Artifact → Option Str
  own_hash build artifact =
      own build.store.entries run_id artifact.artifact_type artifact.artifact_id

  write-own :
      (build : Build Index Ids Time) (artifact : Artifact) (is_stale : Bool)
      (embedding : List Float) (other : Artifact)
      → IsOpen run_id build.store
      → own_hash
          (write_artifact texts upsert provider dump id_gen clock config run_id build artifact
            is_stale embedding)
          other
        ≡ (if str_eq artifact.artifact_type other.artifact_type
              && str_eq artifact.artifact_id other.artifact_id
            then some (source_hash artifact)
            else own_hash build other)
  unfolding write_artifact upsert_entry
  write-own build artifact is_stale embedding other h =
      rw (h.present) (own-put_entry build.store.entries _ other.artifact_type other.artifact_id)

  abbrev pub settled : Build Index Ids Time → Artifact → Bool
  settled build artifact =
      settles provider artifact (get_last_source_hash build.store (query_of config artifact))
        (own_hash build artifact)

  pub round-settles :
      (build : Build Index Ids Time) (artifact : Artifact)
      → IsOpen run_id build.store
      → settled (round build artifact) artifact ≡ true
  round-settles build artifact h = go (rounds build artifact)
    where
      go :
          Round build artifact (round build artifact)
          → settled (round build artifact) artifact ≡ true
      go (skips current o) =
          ground (arith, current, round-last build artifact (query_of config artifact) h)
      go (passes nothing o) = ground (arith, nothing)
      go (writes is_stale embedding o) =
          let mine : own_hash (round build artifact) artifact ≡ some (source_hash artifact) = rw o (
            write-own build artifact is_stale embedding artifact h
            ∙ rw (str_eq_refl artifact.artifact_type, str_eq_refl artifact.artifact_id) refl) in
          ground (arith, mine, str_eq_refl (source_hash artifact))

  -- A test of the last hash and of the own hash that the artifact's own current hash passes.
  abbrev pub Passes : Artifact → (Option Str → Option Str → Bool) → Type 0
  Passes artifact test = (last : Option Str) → test last (some (source_hash artifact)) ≡ true

  abbrev pub tested : (Option Str → Option Str → Bool) → Build Index Ids Time → Artifact → Bool
  tested test build artifact =
      test (get_last_source_hash build.store (query_of config artifact)) (own_hash build artifact)

  pub settles-Passes : (artifact : Artifact) → Passes artifact (settles provider artifact)
  settles-Passes artifact last = ground (arith, str_eq_refl (source_hash artifact))

  -- A round for any artifact keeps what such a test says of another.
  pub round-tested :
      (test : Option Str → Option Str → Bool) (build : Build Index Ids Time)
      (artifact other : Artifact)
      → IsOpen run_id build.store
      → Agree artifact other
      → Passes other test
      → tested test build other ≡ true
      → tested test (round build artifact) other ≡ true
  round-tested test build artifact other h agree passing old = go (rounds build artifact)
    where
      go :
          Round build artifact (round build artifact)
          → tested test (round build artifact) other ≡ true
      go (skips _ o) = rw o old
      go (passes _ o) = rw o old
      go (writes is_stale embedding o) =
          let owned =
            ap (λ after. own_hash after other) o
            ∙ write-own build artifact is_stale embedding other h in
          let lasts = round-last build artifact (query_of config other) h in
          elim (Bool-cases (
            str_eq artifact.artifact_type other.artifact_type
            && str_eq artifact.artifact_id other.artifact_id)) [
              | inl same ↦
                  let mine : own_hash (round build artifact) other ≡ some (source_hash other) =
                    owned ∙ rw same (ap some (ap stable_hash64_hex (agree same))) in
                  rw mine (
                    passing
                      (get_last_source_hash (round build artifact).store (query_of config other)))
              | inr differ ↦
                  let kept : own_hash (round build artifact) other ≡ own_hash build other =
                    owned ∙ rw differ refl in
                  rw (lasts, kept) old
            ]

  pub round-IsOpen :
      (build : Build Index Ids Time) (artifact : Artifact)
      → IsOpen run_id build.store
      → IsOpen run_id (round build artifact).store
  round-IsOpen build artifact h =
      let same = round-runs build artifact in
      record { inactive = rw same h.inactive; present = rw same h.present }
