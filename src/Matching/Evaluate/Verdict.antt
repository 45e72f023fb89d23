-- ===== src/Matching/Evaluate/Verdict.antt =====
-- The reports of the matcher pass the rules of the default constitution.
use career_coordination_mcp.Prelude.{
  ℕ, Str, ◌≡◌, refl, ◌∙◌, ap, subst, Bool, true, false, not, Option, none, some, List, [], ◌∷◌, map,
  is_empty, length, All, inl, inr, Bool-cases, ◌⊎◌, ◌&&◌, if◌then◌else◌,
}
use career_coordination_mcp.Prelude.StringMap.{StringMap}
use career_coordination_mcp.Prelude.StringSet.{contains}
use career_coordination_mcp.Prelude.StringSet.Intersection.{set_intersection}
use career_coordination_mcp.Core.Double.{Double}
use career_coordination_mcp.Domain.Atom.{ExperienceAtom}
use career_coordination_mcp.Domain.Opportunity.{Requirement, Opportunity}
use career_coordination_mcp.Domain.MatchReport.{RequirementMatch}
use career_coordination_mcp.Constitution.Artifact.{ValidationContext, accepted, needs_review}
use career_coordination_mcp.Constitution.Engine.{validate}
use career_coordination_mcp.Constitution.Rules.{make_default_constitution}
use career_coordination_mcp.Constitution.Engine.Grades.{all}
use career_coordination_mcp.Constitution.Rules.Reports.{
  well_formed, evidenced, enveloped, default_verdict,
}
use career_coordination_mcp.Matching.Tokens.{tokenize_field}
use career_coordination_mcp.Matching.Candidates.{
  EmbeddingProvider, EmbeddingIndex, select_candidates,
}
use career_coordination_mcp.Matching.Candidates.Selection.{select_candidates-All}
use career_coordination_mcp.Matching.Evaluate.{
  Matcher, Best, tokens_of, Progress, token_sets, no_progress, match_requirement, record_match,
  process_requirement, process_requirements, report_on, evaluate, no_best,
}
use career_coordination_mcp.Matching.Evaluate.Winner.{IsScored, score_of, best_of-IsScored}
use career_coordination_mcp.Matching.Evaluate.Evidence.{Among, matched_evidence}
use career_coordination_mcp.Matching.Evaluate.Report.{
  matches, match_requirement-requirement_text, evaluate_lem,
}

All-Among :
    (P : ExperienceAtom → Type 0) (atom : ExperienceAtom) (atoms : List ExperienceAtom)
    → All P atoms
    → Among atom atoms
    → P atom
All-Among P atom [] h among = absurd among
All-Among P atom (other ∷ atoms) h (inl same) = subst P same h.0
All-Among P atom (other ∷ atoms) h (inr among) = All-Among P atom atoms h.1 among

module _ (d : Double) where
  open d use {Num, zero, of_nat, add, div, lt, eq, add_nonneg, mean_nonneg, div_nonneg, lt_irrefl}

  -- The score is not negative, and only a match has a contributing atom.
  abbrev IsPlain : RequirementMatch Num → Type 0
  IsPlain rm =
      (lt rm.best_score zero ≡ false) × (rm.matched ≡ false → rm.contributing_atom_id ≡ none)

  record_match-IsPlain :
      (text : Str) (best : Best Num)
      → lt best.best_score zero ≡ false
      → IsPlain (record_match d text best)
  unfolding record_match
  record_match-IsPlain text best h =
      go best.best_atom_id refl (Bool-cases (lt zero best.best_score))
    where
      go :
          (found : Option Str)
          → best.best_atom_id ≡ found
          → (lt zero best.best_score ≡ true) ⊎ (lt zero best.best_score ≡ false)
          → IsPlain (record_match d text best)
      go none p positive = rw (p, record_match) (h, λ _. refl)
      go (some id) p (inl q) = rw (p, q, record_match) (h, λ k. cc)
      go (some id) p (inr q) = rw (p, q, record_match) (h, λ _. refl)

  best_score_nonneg :
      (sets : StringMap (List Str)) (wanted : List Str) (best : Best Num) (ids : List Str)
      → IsScored d sets wanted best ids
      → lt best.best_score zero ≡ false
  best_score_nonneg sets wanted best ids s = go best.best_atom_id refl
    where
      go : (found : Option Str) → best.best_atom_id ≡ found → lt best.best_score zero ≡ false
      go none p =
          let e : best.best_score ≡ zero = rw p at s in ap (λ x. lt x zero) e ∙ lt_irrefl zero
      go (some id) p =
          let facts : (contains ids id ≡ true)
              × (best.best_score ≡ score_of d sets wanted id)
              × (best.best_evidence ≡ set_intersection wanted (tokens_of sets id)) =
            rw p at s in
          ap (λ x. lt x zero) facts.1
          ∙ div_nonneg (length (set_intersection wanted (tokens_of sets id))) (length wanted)

  match_requirement-IsPlain :
      (candidates : List ExperienceAtom) (sets : StringMap (List Str)) (req : Requirement)
      → IsPlain (match_requirement d candidates sets req)
  unfolding match_requirement
  match_requirement-IsPlain candidates sets req =
      let wanted = tokenize_field req.text in
      elim (Bool-cases (is_empty wanted)) [
        | inl empty ↦ rw empty (lt_irrefl zero, λ _. refl)
        | inr filled ↦ rw filled (
            record_match-IsPlain req.text _ (
              best_score_nonneg sets wanted _ (map (λ atom. atom.atom_id) candidates) (
                best_of-IsScored d sets wanted (no_best d) candidates
                  (map (λ atom. atom.atom_id) candidates) (λ z h. h) refl)))
      ]

  add_unless :
      (test : Bool) (a b : Num)
      → lt a zero ≡ false
      → lt b zero ≡ false
      → lt (if test then a else add a b) zero ≡ false
  add_unless true a b h k = h
  add_unless false a b h k = add_nonneg a b h k

  total_nonneg :
      (candidates : List ExperienceAtom) (sets : StringMap (List Str)) (progress : Progress Num)
      (reqs : List Requirement)
      → lt progress.total_score zero ≡ false
      → lt (process_requirements d candidates sets progress reqs).total_score zero ≡ false
  unfolding process_requirements process_requirement
  total_nonneg candidates sets progress [] h = h
  total_nonneg candidates sets progress (req ∷ reqs) h =
      total_nonneg candidates sets (process_requirement d candidates sets progress req) reqs (
        add_unless (is_empty (tokenize_field req.text)) progress.total_score
          (match_requirement d candidates sets req).best_score h
          (match_requirement-IsPlain candidates sets req).0)

  -- The match of a requirement with a text, from candidates with identifiers, has the shape that
  -- SCHEMA-001 asks for and the evidence that EVID-001 asks for.
  match_requirement-well_formed :
      (candidates : List ExperienceAtom) (req : Requirement)
      → All (λ atom. is_empty atom.atom_id ≡ false) candidates
      → is_empty req.text ≡ false
      → let rm = match_requirement d candidates (token_sets [] candidates) req in
        (well_formed d rm ≡ true) × (evidenced d rm ≡ true)
  match_requirement-well_formed candidates req named stated =
      let sets = token_sets [] candidates in
      let rm = match_requirement d candidates sets req in
      let (score, lone) = match_requirement-IsPlain candidates sets req in
      let text : is_empty rm.requirement_text ≡ false =
        ap is_empty (match_requirement-requirement_text d candidates sets req) ∙ stated in
      elim (Bool-cases rm.matched) [
        | inr unmatched ↦ rw (text, score, unmatched, lone unmatched) (refl, refl)
        | inl matched ↦
            let evidence = matched_evidence d candidates req matched in
            let id =
              All-Among (λ atom. is_empty atom.atom_id ≡ false) evidence.atom candidates named
                evidence.candidate in
            rw (text, score, matched, evidence.contributes, id, evidence.shown) (refl, refl)
      ]

  matches-well_formed :
      (candidates : List ExperienceAtom) (reqs : List Requirement)
      → All (λ atom. is_empty atom.atom_id ≡ false) candidates
      → All (λ req. is_empty req.text ≡ false) reqs
      → (all (well_formed d) (matches d candidates (token_sets [] candidates) reqs) ≡ true)
        × (all (evidenced d) (matches d candidates (token_sets [] candidates) reqs) ≡ true)
  matches-well_formed candidates [] named stated = (refl, refl)
  matches-well_formed candidates (req ∷ reqs) named stated =
      let here = match_requirement-well_formed candidates req named stated.0 in
      let rest = matches-well_formed candidates reqs named stated.1 in
      (rw (here.0, rest.0), rw (here.1, rest.1))

  overall_nonneg :
      (test : Bool) (total : Num) (n : ℕ)
      → lt total zero ≡ false
      → lt (if test then div total (of_nat n) else zero) zero ≡ false
  overall_nonneg true total n h = mean_nonneg total n h
  overall_nonneg false total n h = lt_irrefl zero

  -- A report of the matcher passes the default constitution, where every requirement has a text and
  -- every atom an identifier: without an override the verdict is `needs_review` if the overall score is
  -- zero although there are requirements, and else `accepted`; it is never `rejected` or `blocked`.
  pub evaluate-verdict :
      {Float : Type 0} (matcher : Matcher Num) (opportunity : Opportunity)
      (atoms : List ExperienceAtom) (provider : Option (EmbeddingProvider Float))
      (index : Option (EmbeddingIndex Float Num)) (id : Str) (context : ValidationContext)
      → All (λ atom. is_empty atom.atom_id ≡ false) atoms
      → All (λ req. is_empty req.text ≡ false) opportunity.requirements
      → let report = evaluate d matcher opportunity atoms provider index in
        (validate (make_default_constitution d) (enveloped d id report) context none).status ≡ (
          if eq report.overall_score zero && not (is_empty report.requirement_matches)
          then needs_review
          else accepted)
  evaluate-verdict matcher opportunity atoms provider index id context named stated =
      let report = evaluate d matcher opportunity atoms provider index in
      let candidates =
        (select_candidates d matcher.strategy matcher.hybrid_config opportunity atoms provider
          index).0 in
      let chosen =
        select_candidates-All (λ atom. is_empty atom.atom_id ≡ false) d matcher.strategy
          matcher.hybrid_config opportunity atoms provider index named in
      let good = matches-well_formed candidates opportunity.requirements chosen stated in
      let whole = (evaluate_lem d matcher opportunity atoms provider index).0 in
      let positive : lt report.overall_score zero ≡ false =
        unfold evaluate report_on in
        overall_nonneg (not (is_empty opportunity.requirements))
          (process_requirements d candidates (token_sets [] candidates) (no_progress d)
            opportunity.requirements).total_score
          (length opportunity.requirements)
          (total_nonneg candidates (token_sets [] candidates) (no_progress d)
            opportunity.requirements (lt_irrefl zero)) in
      default_verdict d id report context
      ∙ rw
          (positive, ap (all (well_formed d)) whole ∙ good.0, ap (all (evidenced d)) whole ∙ good.1)
