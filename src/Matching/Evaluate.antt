-- ===== src/Matching/Evaluate.antt =====
-- `Matcher::evaluate` (src/matching/matcher.cpp, include/ccmcp/matching/scorer.h).
pub mod Winner
pub mod Evidence
pub mod Report
pub mod Verdict
use career_coordination_mcp.Prelude.{
  Str, lit, Bool, true, false, not, Option, none, some, List, [], ◌∷◌, ◌++◌, if◌then◌else◌,
  is_empty, length, str_lt, ◌&&◌, ◌||◌,
}
use career_coordination_mcp.Prelude.StringMap.{StringMap, find, assign}
use career_coordination_mcp.Prelude.StringSet.{insert}
use career_coordination_mcp.Prelude.StringSet.Intersection.{set_intersection}
use career_coordination_mcp.Core.Double.{Double}
use career_coordination_mcp.Domain.Atom.{ExperienceAtom}
use career_coordination_mcp.Domain.Opportunity.{Requirement, Opportunity}
use career_coordination_mcp.Domain.MatchReport.{MatchReport, RequirementMatch, RetrievalStats}
use career_coordination_mcp.Matching.Tokens.{tokenize_field, atom_tokens}
use career_coordination_mcp.Matching.Candidates.{
  MatchingStrategy, deterministic_lexical_v01, hybrid_lexical_embedding_v02, HybridConfig,
  EmbeddingProvider, EmbeddingIndex, overlap, select_candidates,
}

pub record ScoreWeights (Num : Type 0) : Type 0 where
  pub lexical : Num
  pub semantic : Num
  pub bonus : Num

pub record Matcher (Num : Type 0) : Type 0 where
  pub weights : ScoreWeights Num
  pub strategy : MatchingStrategy
  pub hybrid_config : HybridConfig

abbrev pub strategy_name : MatchingStrategy → Str
strategy_name deterministic_lexical_v01 = lit "deterministic_lexical_v0.1"
strategy_name hybrid_lexical_embedding_v02 = lit "hybrid_lexical_embedding_v0.2"

-- `candidate_token_sets`
unfoldable pub token_sets : StringMap (List Str) → List ExperienceAtom → StringMap (List Str)
unfolding assign atom_tokens
token_sets sets [] = sets
token_sets sets (atom ∷ atoms) = token_sets (assign sets atom.atom_id (atom_tokens atom)) atoms

-- `candidate_token_sets[id]`
abbrev pub tokens_of : StringMap (List Str) → Str → List Str
tokens_of sets id = elim (find sets id) [ none ↦ [] | some tokens ↦ tokens ]

-- `!best_atom_id.has_value() || id < best_atom_id->value`
abbrev pub comes_first : Str → Option Str → Bool
comes_first id none = true
comes_first id (some best) = str_lt id best

pub record Best (Num : Type 0) : Type 0 where
  pub best_score : Num
  pub best_atom_id : Option Str
  pub best_evidence : List Str

-- What the loop over the requirements accumulates
pub record Progress (Num : Type 0) : Type 0 where
  pub total_score : Num
  pub matched_atom_ids : List Str
  pub requirement_matches : List (RequirementMatch Num)
  pub missing_requirements : List Str

module _ (d : Double) where
  open d use {Num, zero, of_nat, add, mul, div, lt, eq}

  -- The test of the inner loop
  abbrev pub improves : Best Num → Num → Str → Bool
  improves best score id =
      lt best.best_score score || (eq score best.best_score && comes_first id best.best_atom_id)

  -- The body of the inner loop
  unfoldable pub consider : StringMap (List Str) → List Str → Best Num → ExperienceAtom → Best Num
  unfolding set_intersection find
  consider sets req_tokens best atom =
      let tokens = tokens_of sets atom.atom_id in
      let score = overlap d req_tokens tokens in
      if improves best score atom.atom_id
      then (record {
        best_score = score;
        best_atom_id = some atom.atom_id;
        best_evidence = set_intersection req_tokens tokens;
      })
      else best

  unfoldable pub best_of :
      StringMap (List Str) → List Str → Best Num → List ExperienceAtom → Best Num
  unfolding consider
  best_of sets req_tokens best [] = best
  best_of sets req_tokens best (atom ∷ atoms) =
      best_of sets req_tokens (consider sets req_tokens best atom) atoms

  abbrev pub no_best : Best Num
  no_best = record { best_score = zero; best_atom_id = none; best_evidence = [] }

  abbrev pub unmatched : Str → Num → RequirementMatch Num
  unmatched text score = record {
    requirement_text = text;
    matched = false;
    best_score = score;
    contributing_atom_id = none;
    evidence_tokens = [];
  }

  -- From "Record match result" on: the match of a requirement whose best is known
  unfoldable pub record_match : Str → Best Num → RequirementMatch Num
  record_match text best = elim (best.best_atom_id) [
    | none ↦ unmatched text best.best_score
    | some id ↦
        if lt zero best.best_score
        then (record {
          requirement_text = text;
          matched = true;
          best_score = best.best_score;
          contributing_atom_id = some id;
          evidence_tokens = best.best_evidence;
        })
        else unmatched text best.best_score
  ]

  -- `matched_atom_ids.insert`, where the requirement is matched
  abbrev pub note_atom : List Str → RequirementMatch Num → List Str
  note_atom ids rm = elim (rm.contributing_atom_id) [ none ↦ ids | some id ↦ insert ids id ]

  abbrev pub note_missing : List Str → RequirementMatch Num → List Str
  note_missing texts rm = if rm.matched then texts else texts ++ rm.requirement_text ∷ []

  -- The match of one requirement
  unfoldable pub match_requirement :
      List ExperienceAtom → StringMap (List Str) → Requirement → RequirementMatch Num
  unfolding tokenize_field best_of record_match
  match_requirement candidates sets req =
      let req_tokens = tokenize_field req.text in
      if is_empty req_tokens
      then unmatched req.text zero
      else record_match req.text (best_of sets req_tokens no_best candidates)

  -- The body of the loop over the requirements; without tokens nothing is added to the total
  unfoldable pub process_requirement :
      List ExperienceAtom → StringMap (List Str) → Progress Num → Requirement → Progress Num
  unfolding match_requirement tokenize_field insert
  process_requirement candidates sets progress req =
      let rm = match_requirement candidates sets req in
      record {
        total_score =
            if is_empty (tokenize_field req.text)
            then progress.total_score
            else add progress.total_score rm.best_score;
        matched_atom_ids = note_atom progress.matched_atom_ids rm;
        requirement_matches = progress.requirement_matches ++ rm ∷ [];
        missing_requirements = note_missing progress.missing_requirements rm;
      }

  unfoldable pub process_requirements :
      List ExperienceAtom → StringMap (List Str) → Progress Num → List Requirement → Progress Num
  unfolding process_requirement
  process_requirements candidates sets progress [] = progress
  process_requirements candidates sets progress (req ∷ reqs) =
      process_requirements candidates sets (process_requirement candidates sets progress req) reqs

  abbrev pub no_progress : Progress Num
  no_progress = record {
    total_score = zero;
    matched_atom_ids = [];
    requirement_matches = [];
    missing_requirements = [];
  }

  -- From the candidates on
  unfoldable pub report_on :
      Matcher Num → Opportunity → List ExperienceAtom → RetrievalStats → MatchReport Num
  unfolding token_sets process_requirements
  report_on matcher opportunity candidates stats =
      let progress =
        process_requirements candidates (token_sets [] candidates) no_progress
          opportunity.requirements in
      let overall =
        if not (is_empty opportunity.requirements)
        then div progress.total_score (of_nat (length opportunity.requirements))
        else zero in
      record {
        opportunity_id = opportunity.opportunity_id;
        strategy = strategy_name matcher.strategy;
        overall_score = overall;
        requirement_matches = progress.requirement_matches;
        missing_requirements = progress.missing_requirements;
        retrieval_stats = stats;
        matched_atoms = progress.matched_atom_ids;
        breakdown = record {
          lexical = overall;
          semantic = zero;
          bonus = zero;
          final_score = mul matcher.weights.lexical overall;
        };
      }

  unfoldable pub evaluate :
      {Float : Type 0}
      → Matcher Num
      → Opportunity
      → List ExperienceAtom
      → Option (EmbeddingProvider Float)
      → Option (EmbeddingIndex Float Num)
      → MatchReport Num
  unfolding select_candidates report_on
  evaluate matcher opportunity atoms provider index =
      let (candidates, stats) =
        select_candidates d matcher.strategy matcher.hybrid_config opportunity atoms provider
          index in
      report_on matcher opportunity candidates stats
