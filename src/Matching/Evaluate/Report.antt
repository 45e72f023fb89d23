-- ===== src/Matching/Evaluate/Report.antt =====
-- The report of `evaluate`: its lists, its scores, and the verdict of the default constitution on it.
use career_coordination_mcp.Prelude.{
  Str, ◌≡◌, refl, ◌∙◌, sym, ap, ap₂, Bool, true, false, Option, none, some, List, [], ◌∷◌, ◌++◌,
  map, append-nil, append_assoc, is_empty, inl, inr, arith, Bool-cases, ◌⊎◌, ◌||◌, if◌then◌else◌,
  str_eq,
}
use career_coordination_mcp.Prelude.Sorting.{any}
use career_coordination_mcp.Prelude.StringMap.{StringMap}
use career_coordination_mcp.Prelude.StringSet.{
  contains, contains-insert, IsAscending, insert-IsAscending,
}
use career_coordination_mcp.Core.Double.{Double}
use career_coordination_mcp.Domain.Atom.{ExperienceAtom}
use career_coordination_mcp.Domain.Opportunity.{Requirement, Opportunity}
use career_coordination_mcp.Domain.MatchReport.{RequirementMatch}
use career_coordination_mcp.Matching.Tokens.{tokenize_field}
use career_coordination_mcp.Matching.Candidates.{
  EmbeddingProvider, EmbeddingIndex, select_candidates,
}
use career_coordination_mcp.Matching.Evaluate.{
  Matcher, Progress, token_sets, no_progress, note_atom, note_missing, match_requirement,
  record_match, process_requirement, process_requirements, report_on, evaluate, Best,
}

module _ (d : Double) where
  open d use {Num, zero, of_nat, add, div, lt, add_nonneg, mean_nonneg, div_nonneg, lt_irrefl}

  -- The texts of the requirements that are not matched.
  abbrev pub unmatched_texts : List (RequirementMatch Num) → List Str
  unmatched_texts [] = []
  unmatched_texts (rm ∷ rms) =
      if rm.matched then unmatched_texts rms else rm.requirement_text ∷ unmatched_texts rms

  -- The match has the atom for its contributing atom.
  abbrev pub credits : Str → RequirementMatch Num → Bool
  credits id rm = elim (rm.contributing_atom_id) [ none ↦ false | some other ↦ str_eq other id ]

  note_missing-append :
      (texts : List Str) (rm : RequirementMatch Num) (rms : List (RequirementMatch Num))
      → note_missing d texts rm ++ unmatched_texts rms ≡ texts ++ unmatched_texts (rm ∷ rms)
  note_missing-append texts rm rms = elim (Bool-cases rm.matched) [
    | inl h ↦ rw h
    | inr h ↦ rw h (append_assoc texts (rm.requirement_text ∷ []) (unmatched_texts rms))
  ]

  contains-note_atom :
      (ids : List Str) (rm : RequirementMatch Num) (z : Str)
      → contains (note_atom d ids rm) z ≡ (credits z rm || contains ids z)
  contains-note_atom ids rm z = go rm.contributing_atom_id refl
    where
      go :
          (found : Option Str)
          → rm.contributing_atom_id ≡ found
          → contains (note_atom d ids rm) z ≡ (credits z rm || contains ids z)
      go none p = rw p
      go (some id) p = rw p (contains-insert ids id z)

  note_atom-IsAscending :
      (ids : List Str) (rm : RequirementMatch Num)
      → IsAscending ids
      → IsAscending (note_atom d ids rm)
  note_atom-IsAscending ids rm a = go rm.contributing_atom_id refl
    where
      go : (found : Option Str) → rm.contributing_atom_id ≡ found → IsAscending (note_atom d ids rm)
      go none p = rw p a
      go (some id) p = rw p (insert-IsAscending ids id a)

  module _ (candidates : List ExperienceAtom) (sets : StringMap (List Str)) where
    abbrev pub matches : List Requirement → List (RequirementMatch Num)
    matches reqs = map (match_requirement d candidates sets) reqs

    process_requirements-matches :
        (progress : Progress Num) (reqs : List Requirement)
        → (process_requirements d candidates sets progress reqs).requirement_matches
          ≡ progress.requirement_matches ++ matches reqs
    unfolding process_requirements process_requirement
    process_requirements-matches progress [] = sym (append-nil progress.requirement_matches)
    process_requirements-matches progress (req ∷ reqs) =
        process_requirements-matches (process_requirement d candidates sets progress req) reqs
        ∙ append_assoc progress.requirement_matches (match_requirement d candidates sets req ∷ [])
            (matches reqs)

    process_requirements-missing :
        (progress : Progress Num) (reqs : List Requirement)
        → (process_requirements d candidates sets progress reqs).missing_requirements
          ≡ progress.missing_requirements ++ unmatched_texts (matches reqs)
    unfolding process_requirements process_requirement
    process_requirements-missing progress [] = sym (append-nil progress.missing_requirements)
    process_requirements-missing progress (req ∷ reqs) =
        process_requirements-missing (process_requirement d candidates sets progress req) reqs
        ∙ note_missing-append progress.missing_requirements
            (match_requirement d candidates sets req) (matches reqs)

    process_requirements-atoms :
        (progress : Progress Num) (reqs : List Requirement) (z : Str)
        → contains (process_requirements d candidates sets progress reqs).matched_atom_ids z
          ≡ (any (credits z) (matches reqs) || contains progress.matched_atom_ids z)
    unfolding process_requirements process_requirement
    process_requirements-atoms progress [] z = refl
    process_requirements-atoms progress (req ∷ reqs) z = ground (
      arith,
      process_requirements-atoms (process_requirement d candidates sets progress req) reqs z,
      contains-note_atom progress.matched_atom_ids (match_requirement d candidates sets req) z,
    )

    process_requirements-IsAscending :
        (progress : Progress Num) (reqs : List Requirement)
        → IsAscending progress.matched_atom_ids
        → IsAscending (process_requirements d candidates sets progress reqs).matched_atom_ids
    unfolding process_requirements process_requirement
    process_requirements-IsAscending progress [] a = a
    process_requirements-IsAscending progress (req ∷ reqs) a =
        process_requirements-IsAscending (process_requirement d candidates sets progress req) reqs (
          note_atom-IsAscending progress.matched_atom_ids (match_requirement d candidates sets req)
            a)

  record_match-requirement_text :
      (text : Str) (best : Best Num) → (record_match d text best).requirement_text ≡ text
  unfolding record_match
  record_match-requirement_text text best =
      go best.best_atom_id refl (Bool-cases (lt zero best.best_score))
    where
      go :
          (found : Option Str)
          → best.best_atom_id ≡ found
          → (lt zero best.best_score ≡ true) ⊎ (lt zero best.best_score ≡ false)
          → (record_match d text best).requirement_text ≡ text
      go none p positive = rw p
      go (some id) p (inl q) = rw (p, q)
      go (some id) p (inr q) = rw (p, q)

  pub match_requirement-requirement_text :
      (candidates : List ExperienceAtom) (sets : StringMap (List Str)) (req : Requirement)
      → (match_requirement d candidates sets req).requirement_text ≡ req.text
  unfolding match_requirement
  match_requirement-requirement_text candidates sets req =
      elim (Bool-cases (is_empty (tokenize_field req.text))) [
        | inl empty ↦ rw empty
        | inr filled ↦ rw filled (record_match-requirement_text req.text _)
      ]

  matches-texts :
      (candidates : List ExperienceAtom) (sets : StringMap (List Str)) (reqs : List Requirement)
      → map (λ rm. rm.requirement_text) (matches candidates sets reqs) ≡ map (λ req. req.text) reqs
  matches-texts candidates sets [] = refl
  matches-texts candidates sets (req ∷ reqs) =
      ap₂ ◌∷◌ (match_requirement-requirement_text candidates sets req)
        (matches-texts candidates sets reqs)

  -- The report has one match for each requirement, in their order and with their texts: the match of
  -- the requirement with the selected candidates. The missing requirements are the texts of those that
  -- are not matched, in order; the matched atoms are the contributing atoms of the matches, each once
  -- and in ascending order.
  pub evaluate_lem :
      {Float : Type 0} (matcher : Matcher Num) (opportunity : Opportunity)
      (atoms : List ExperienceAtom) (provider : Option (EmbeddingProvider Float))
      (index : Option (EmbeddingIndex Float Num))
      → let report = evaluate d matcher opportunity atoms provider index in
        let candidates =
          (select_candidates d matcher.strategy matcher.hybrid_config opportunity atoms provider
            index).0 in
        (report.requirement_matches
          ≡ matches candidates (token_sets [] candidates) opportunity.requirements)
        × (map (λ rm. rm.requirement_text) report.requirement_matches
            ≡ map (λ req. req.text) opportunity.requirements)
        × (report.missing_requirements ≡ unmatched_texts report.requirement_matches)
        × IsAscending report.matched_atoms
        × ((z : Str) → contains report.matched_atoms z ≡ any (credits z) report.requirement_matches)
  unfolding evaluate report_on contains
  evaluate_lem matcher opportunity atoms provider index =
      let candidates =
        (select_candidates d matcher.strategy matcher.hybrid_config opportunity atoms provider
          index).0 in
      let sets = token_sets [] candidates in
      let reqs = opportunity.requirements in
      let whole = process_requirements-matches candidates sets (no_progress d) reqs in
      (
        whole,
        ap (map (λ rm. rm.requirement_text)) whole ∙ matches-texts candidates sets reqs,
        process_requirements-missing candidates sets (no_progress d) reqs
            ∙ ap unmatched_texts (sym whole),
        process_requirements-IsAscending candidates sets (no_progress d) reqs tt,
        λ z. ground (
          arith,
          process_requirements-atoms candidates sets (no_progress d) reqs z,
          ap (any (credits z)) whole,
        ),
      )
