-- ===== src/Examples/Matches.antt =====
-- The matcher on two atoms and two requirements, with whole numbers for scores.
use career_coordination_mcp.Prelude.{
  ℕ, ◌+◌, ◌≤◌, length, ◌≡◌, ◌≤◌, refl, Str, lit, true, not, none, some, List, [], ◌∷◌, map,
  is_empty, length, All, if◌then◌else◌, ◌&&◌, str_eq, str_lt, ◌==◌,
}
use career_coordination_mcp.Prelude.Sorting.{any}
use career_coordination_mcp.Prelude.StringMap.{find, assign}
use career_coordination_mcp.Prelude.StringSet.{contains, insert, insert_all, IsAscending}
use career_coordination_mcp.Prelude.StringSet.Intersection.{set_intersection}
use career_coordination_mcp.Core.Normalization.{tokenize_ascii, split, flush, normalize_byte}
use career_coordination_mcp.Domain.Atom.{ExperienceAtom, verify}
use career_coordination_mcp.Domain.Opportunity.{Requirement, Opportunity}
use career_coordination_mcp.Domain.MatchReport.{MatchReport}
use career_coordination_mcp.Constitution.Artifact.{accepted, needs_review}
use career_coordination_mcp.Constitution.Engine.{validate}
use career_coordination_mcp.Constitution.Rules.{make_default_constitution}
use career_coordination_mcp.Constitution.Rules.Reports.{enveloped}
use career_coordination_mcp.Matching.Tokens.{
  tokenize_field, requirement_tokens, combine_token_sets, atom_tokens,
}
use career_coordination_mcp.Matching.Candidates.{
  deterministic_lexical_v01, hybrid_lexical_embedding_v02, HybridConfig, EmbeddingProvider,
  EmbeddingIndex, verified_atoms, select_candidates,
}
use career_coordination_mcp.Matching.Candidates.Selection.{hybrid_bounds}
use career_coordination_mcp.Matching.Evaluate.{
  Matcher, token_sets, consider, best_of, record_match, match_requirement, evaluate,
}
use career_coordination_mcp.Matching.Evaluate.Winner.{Beats}
use career_coordination_mcp.Matching.Evaluate.Evidence.{
  IsEvidenced, best_shown, matched_evidence, match_is_best,
}
use career_coordination_mcp.Matching.Evaluate.Report.{
  matches, unmatched_texts, credits, evaluate_lem,
}
use career_coordination_mcp.Matching.Evaluate.Verdict.{evaluate-verdict}
use career_coordination_mcp.Examples.Numbers.{whole_numbers}

abbrev atom : Str → Str → ExperienceAtom
atom id claim = record {
  atom_id = id;
  domain = lit "backend";
  title = lit "Work";
  claim = claim;
  tags = [];
  verified = true;
  evidence_refs = [];
}

abbrev go_atom : ExperienceAtom
go_atom = atom (lit "a1") (lit "Wrote Go")

abbrev sql_atom : ExperienceAtom
sql_atom = atom (lit "a2") (lit "Tuned SQL")

abbrev atoms : List ExperienceAtom
atoms = go_atom ∷ sql_atom ∷ []

abbrev go_requirement : Requirement
go_requirement = record { text = lit "Go"; tags = []; required = true }

abbrev opportunity : Opportunity
opportunity = record {
  opportunity_id = lit "opp-1";
  company = lit "Acme";
  role_title = lit "Engineer";
  requirements = go_requirement ∷ record { text = lit "Rust"; tags = []; required = true } ∷ [];
  source = [];
}

abbrev config : HybridConfig
config = record { k_lexical = 25; k_embedding = 25 }

abbrev lexical : Matcher ℕ
lexical = record {
  weights = record { lexical = 1; semantic = 1; bonus = 0 };
  strategy = deterministic_lexical_v01;
  hybrid_config = config;
}

-- An index that knows an atom that is gone.
abbrev stale_index : EmbeddingIndex ℕ ℕ
stale_index = record {
  query = λ embedding k. record { key = lit "gone"; score = 1; metadata = [] } ∷ [];
}

abbrev provider : EmbeddingProvider ℕ
provider = record { embed_text = λ text. text; dimension = 1 }

matched_evidence_example :
    IsEvidenced whole_numbers
      (lit "Go")
      atoms
      (match_requirement whole_numbers atoms (token_sets [] atoms) go_requirement)
unfolding match_requirement tokenize_field combine_token_sets atom_tokens token_sets consider
    best_of record_match tokenize_ascii split flush normalize_byte insert_all insert
    set_intersection find assign str_eq str_lt
matched_evidence_example = matched_evidence whole_numbers atoms go_requirement refl

match_is_best_example :
    All
      (Beats whole_numbers (token_sets [] atoms) (tokenize_field (lit "Go")) (
        best_shown whole_numbers
          (match_requirement whole_numbers atoms (token_sets [] atoms) go_requirement)))
      atoms
unfolding match_requirement tokenize_field combine_token_sets atom_tokens token_sets consider
    best_of record_match tokenize_ascii split flush normalize_byte insert_all insert
    set_intersection find assign str_eq str_lt
match_is_best_example = match_is_best whole_numbers atoms go_requirement refl

abbrev report : MatchReport ℕ
report = evaluate whole_numbers lexical opportunity atoms (some provider) (some stale_index)

evaluate_lem_example :
    (report.requirement_matches
      ≡ matches whole_numbers atoms (token_sets [] atoms) opportunity.requirements)
    × (map (λ rm. rm.requirement_text) report.requirement_matches ≡ lit "Go" ∷ lit "Rust" ∷ [])
    × (report.missing_requirements ≡ unmatched_texts whole_numbers report.requirement_matches)
    × IsAscending report.matched_atoms
    × ((z : Str)
        → contains report.matched_atoms z
          ≡ any (credits whole_numbers z) report.requirement_matches)
unfolding select_candidates verified_atoms verify
evaluate_lem_example =
    evaluate_lem whole_numbers lexical opportunity atoms (some provider) (some stale_index)

evaluate-verdict_example :
    (validate
      (make_default_constitution whole_numbers)
      (enveloped whole_numbers (lit "art-1") report)
      (record {
        constitution_id = lit "default";
        constitution_version = lit "0.1.0";
        ground_truth_refs = [];
        trace_id = lit "t";
      })
      none).status
    ≡ (if report.overall_score == 0 && not (is_empty report.requirement_matches)
        then needs_review
        else accepted)
evaluate-verdict_example =
    evaluate-verdict whole_numbers lexical opportunity atoms (some provider) (some stale_index)
      (lit "art-1")
      (record {
        constitution_id = lit "default";
        constitution_version = lit "0.1.0";
        ground_truth_refs = [];
        trace_id = lit "t";
      })
      (refl, (refl, tt)) (refl, (refl, tt))

hybrid_bounds_example :
    let chosen =
      select_candidates whole_numbers hybrid_lexical_embedding_v02 config opportunity atoms
        (some provider)
        (some stale_index) in
    (length chosen.0 ≤ chosen.1.merged_candidates)
    × (chosen.1.merged_candidates ≤ chosen.1.lexical_candidates + chosen.1.embedding_candidates)
    × (chosen.1.lexical_candidates ≤ 25)
unfolding requirement_tokens tokenize_field tokenize_ascii split flush normalize_byte insert_all
    insert str_eq str_lt
hybrid_bounds_example =
    hybrid_bounds whole_numbers config opportunity atoms (some provider) (some stale_index) refl
