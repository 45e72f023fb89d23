-- ===== src/Matching/Candidates.antt =====
-- `Matcher::select_candidates` (src/matching/matcher.cpp). The embedding provider and the vector index
-- are the two interfaces that it calls; a pointer that may be null is an `Option`.
pub mod Selection
use career_coordination_mcp.Prelude.{
  ℕ, Str, Bool, not, Option, none, some, List, [], ◌∷◌, map, if◌then◌else◌, is_empty, length, take,
  ltb, str_lt,
}
use career_coordination_mcp.Prelude.Sorting.{sort_by}
use career_coordination_mcp.Prelude.StringMap.{StringMap, find, assign}
use career_coordination_mcp.Prelude.StringSet.{insert_all}
use career_coordination_mcp.Prelude.StringSet.Intersection.{set_intersection}
use career_coordination_mcp.Core.Double.{Double}
use career_coordination_mcp.Domain.Atom.{ExperienceAtom, verify}
use career_coordination_mcp.Domain.Opportunity.{Opportunity}
use career_coordination_mcp.Domain.MatchReport.{RetrievalStats}
use career_coordination_mcp.Matching.Tokens.{atom_tokens, requirement_tokens, build_query_text}

pub data MatchingStrategy : Type 0 where
  deterministic_lexical_v01 hybrid_lexical_embedding_v02 : MatchingStrategy

pub record HybridConfig : Type 0 where
  pub k_lexical : ℕ
  pub k_embedding : ℕ

pub record EmbeddingProvider (Float : Type 0) : Type 0 where
  pub embed_text : Str → List Float
  pub dimension : ℕ

pub record VectorSearchResult (Num : Type 0) : Type 0 where
  pub key : Str
  pub score : Num
  pub metadata : Str

pub record EmbeddingIndex (Float Num : Type 0) : Type 0 where
  pub query : List Float → ℕ → List (VectorSearchResult Num)

pub record ScoredAtom (Num : Type 0) : Type 0 where
  pub atom : ExperienceAtom
  pub score : Num

unfoldable pub verified_atoms : List ExperienceAtom → List ExperienceAtom
unfolding verify
verified_atoms [] = []
verified_atoms (atom ∷ atoms) =
    let rest = verified_atoms atoms in if verify atom then atom ∷ rest else rest

abbrev pub lexical_stats : List ExperienceAtom → RetrievalStats
lexical_stats candidates = record {
  lexical_candidates = length candidates;
  embedding_candidates = 0;
  merged_candidates = length candidates;
}

-- `atom_map`: the last atom of an identifier stays
unfoldable pub atom_map : StringMap ExperienceAtom → List ExperienceAtom → StringMap ExperienceAtom
unfolding assign
atom_map m [] = m
atom_map m (atom ∷ atoms) = atom_map (assign m atom.atom_id atom) atoms

-- The last loop: the atoms of the merged identifiers
unfoldable pub look_up_all : StringMap ExperienceAtom → List Str → List ExperienceAtom
unfolding find
look_up_all m [] = []
look_up_all m (id ∷ ids) =
    let rest = look_up_all m ids in elim (find m id) [ none ↦ rest | some atom ↦ atom ∷ rest ]

-- From the scores on: the two sets of identifiers, merged
unfoldable pub merge_candidates :
    List ExperienceAtom → List Str → List Str → List ExperienceAtom × RetrievalStats
unfolding insert_all atom_map look_up_all
merge_candidates atoms lexical_atom_ids embedding_atom_ids =
    let merged_atom_ids = insert_all (insert_all [] lexical_atom_ids) embedding_atom_ids in
    (
      look_up_all (atom_map [] atoms) merged_atom_ids,
      record {
        lexical_candidates = length lexical_atom_ids;
        embedding_candidates = length embedding_atom_ids;
        merged_candidates = length merged_atom_ids;
      },
    )

module _ (d : Double) where
  open d use {Num, of_nat, div, lt, eq}

  -- The share of the tokens `query` that are among the tokens of the atom
  abbrev pub overlap : List Str → List Str → Num
  overlap query tokens =
      div (of_nat (length (set_intersection query tokens))) (of_nat (length query))

  unfoldable pub score_atoms : List Str → List ExperienceAtom → List (ScoredAtom Num)
  unfolding verify atom_tokens set_intersection
  score_atoms query_tokens [] = []
  score_atoms query_tokens (atom ∷ atoms) =
      let rest = score_atoms query_tokens atoms in
      if not (verify atom)
      then rest
      else record { atom = atom; score = overlap query_tokens (atom_tokens atom) } ∷ rest

  unfoldable pub scored_less : ScoredAtom Num → ScoredAtom Num → Bool
  scored_less a b =
      if not (eq a.score b.score) then lt b.score a.score else str_lt a.atom.atom_id b.atom.atom_id

  -- The identifiers of the best `k_lexical` verified atoms
  unfoldable pub lexical_ids : HybridConfig → List Str → List ExperienceAtom → List Str
  unfolding score_atoms scored_less sort_by insert_all
  lexical_ids config query_tokens atoms = insert_all [] (
      map (λ scored. scored.atom.atom_id)
        (take config.k_lexical (sort_by scored_less (score_atoms query_tokens atoms))))

  module _ {Float : Type 0} where
    unfoldable pub embedding_ids :
        HybridConfig
        → Opportunity
        → Option (EmbeddingProvider Float)
        → Option (EmbeddingIndex Float Num)
        → List Str
    unfolding build_query_text insert_all
    embedding_ids config opportunity (some provider) (some index) =
        if ltb 0 provider.dimension
        then (let embedding = provider.embed_text (build_query_text opportunity) in
            if not (is_empty embedding)
            then insert_all []
                (map (λ result. result.key) (index.query embedding config.k_embedding))
            else [])
        else []
    embedding_ids config opportunity _ _ = []

    unfoldable pub select_candidates :
        MatchingStrategy
        → HybridConfig
        → Opportunity
        → List ExperienceAtom
        → Option (EmbeddingProvider Float)
        → Option (EmbeddingIndex Float Num)
        → List ExperienceAtom × RetrievalStats
    unfolding verified_atoms requirement_tokens insert_all lexical_ids embedding_ids
        merge_candidates
    select_candidates deterministic_lexical_v01 config opportunity atoms provider index =
        let candidates = verified_atoms atoms in (candidates, lexical_stats candidates)
    select_candidates hybrid_lexical_embedding_v02 config opportunity atoms provider index =
        let query_tokens = insert_all [] (requirement_tokens opportunity.requirements) in
        let candidates = verified_atoms atoms in
        if is_empty query_tokens
        then (candidates, lexical_stats candidates)
        else merge_candidates atoms (lexical_ids config query_tokens atoms)
            (embedding_ids config opportunity provider index)
