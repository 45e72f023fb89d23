-- ===== src/Examples/Builds.antt =====
-- Index runs and builds with one atom.
use career_coordination_mcp.Prelude.{
  ℕ, ◌≡◌, refl, Str, lit, true, none, some, List, [], ◌∷◌, ◌++◌, str_eq, str_lt, to_string,
  Bool-cases, inl, inr, arith,
}
use career_coordination_mcp.Prelude.StringMap.{find, assign, find-assign}
use career_coordination_mcp.Domain.Atom.{ExperienceAtom}
use career_coordination_mcp.Matching.Candidates.{EmbeddingProvider}
use career_coordination_mcp.App.Services.{Services}
use career_coordination_mcp.Indexing.Run.{completed, IndexRun}
use career_coordination_mcp.Indexing.RunStore.{
  RunStore, Query, empty, upsert_run, next_index_run_id, get_last_source_hash, run_id_of,
}
use career_coordination_mcp.Indexing.RunStore.Last.{AllBefore, own, own_or, last-completed}
use career_coordination_mcp.Indexing.RunStore.Sound.{
  IsSound, next_index_run_id-IsSound, upsert_run-IsSound,
}
use career_coordination_mcp.Indexing.Build.{
  IndexBuildConfig, IndexBuildResult, Inputs, Texts, Build, artifacts, started_run,
  atom_canonical_text, run_index_build,
}
use career_coordination_mcp.Indexing.Build.Again.{second_build_idle}
use career_coordination_mcp.Examples.Pipelines.{counter, stopped, dump, services}

abbrev atom : ExperienceAtom
atom = record {
  atom_id = lit "a1";
  domain = lit "backend";
  title = lit "Work";
  claim = lit "Wrote Go";
  tags = [];
  verified = true;
  evidence_refs = [];
}

abbrev pub inputs : Inputs
inputs = record { atoms = (lit "a1", atom) ∷ []; resumes = []; opportunities = [] }

abbrev config : IndexBuildConfig
config = record { scope = lit "all"; provider_id = lit "stub"; model_id = []; prompt_version = [] }

abbrev pub texts : Texts ℕ
texts = record {
  vector_bytes = λ vec. vec;
  metadata = λ kind id hash. kind ++ (id ++ hash);
  started = λ run_id config. run_id;
  indexed = λ kind id hash is_stale. id;
  summary = λ indexed skipped stale scope. scope;
  completed = λ run_id indexed skipped stale. run_id;
}

abbrev pub provider : EmbeddingProvider ℕ
provider = record { embed_text = λ text. text; dimension = 1 }

-- A list of pairs for a vector index.
abbrev pub upsert : List (Str × Str) → Str → List ℕ → Str → List (Str × Str)
upsert vectors key embedding metadata = (key, embedding) ∷ vectors

-- A run that was completed long ago.
abbrev old_run : IndexRun
old_run = record (started_run config (run_id_of 1) (lit "1969-01-01T00:00:00Z")) {
  status = completed;
  completed_at = some (lit "1969-01-01T00:00:01Z");
}

empty-IsSound : IsSound empty
unfolding find
empty-IsSound = record { fresh = λ n p. refl; keyed = tt }

abbrev store : RunStore
store = upsert_run (next_index_run_id empty).1 old_run

store-IsSound : IsSound store
unfolding next_index_run_id
store-IsSound =
    upsert_run-IsSound (next_index_run_id empty).1 old_run 1 refl (omega arith)
      (next_index_run_id-IsSound empty empty-IsSound)

store-before : AllBefore store.runs (lit "1970-01-01T00:00:00Z")
unfolding upsert_run next_index_run_id find str_lt
store-before id r found done = elim (Bool-cases (str_eq (run_id_of 1) id)) [
  | inl same ↦
      let now : some old_run ≡ some r = rw (find-assign, same) at found in rw (← now_run now) refl
  | inr other ↦ let now : none ≡ some r = rw (find-assign, other) at found in cc
]
  where
    now_run : some old_run ≡ some r → old_run ≡ r
    now_run e = cc e

abbrev run :
    RunStore → List (Str × Str) → Services ℕ ℕ → IndexBuildResult × Build (List (Str × Str)) ℕ ℕ
run store vectors services =
    run_index_build texts upsert provider dump counter stopped inputs config store vectors services

second_build_idle_example :
    let first = (run store [] services).1 in
    let (result, second) = run first.store first.vectors first.services in
    (result.indexed_count ≡ 0)
    × (result.stale_count ≡ 0)
    × (second.vectors ≡ first.vectors)
    × (second.store.entries ≡ first.store.entries)
unfolding artifacts
second_build_idle_example =
    second_build_idle texts upsert provider dump counter stopped inputs config
      (λ kind id. atom_canonical_text atom) store [] services store-IsSound (λ time. store-before)
      (refl, tt)

last-completed_example :
    let run = record old_run {
      run_id = run_id_of 2;
      completed_at = some (lit "1970-01-01T00:00:00Z");
    } in
    let q : Query = record {
      artifact_id = lit "a1";
      artifact_type = lit "atom";
      provider_id = lit "stub";
      model_id = [];
      prompt_version = [];
    } in
    get_last_source_hash (upsert_run store run) q
    ≡ own_or
        (own store.entries (run_id_of 2) (lit "atom") (lit "a1"))
        (get_last_source_hash store q)
unfolding find upsert_run next_index_run_id assign str_eq str_lt to_string
last-completed_example =
    last-completed store
      (record old_run { run_id = run_id_of 2; completed_at = some (lit "1970-01-01T00:00:00Z") })
      (record {
        artifact_id = lit "a1";
        artifact_type = lit "atom";
        provider_id = lit "stub";
        model_id = [];
        prompt_version = [];
      })
      (lit "1970-01-01T00:00:00Z") refl refl refl store-before
