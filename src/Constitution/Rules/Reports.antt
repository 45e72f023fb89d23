-- ===== src/Constitution/Rules/Reports.antt =====
-- The verdict of the default constitution on match reports.
use career_coordination_mcp.Prelude.{
  ℕ, lit, ◌+◌, ◌≡◌, refl, ◌∙◌, Str, Bool, true, false, not, Option, none, some, List, [], ◌∷◌, ◌++◌,
  ◌||◌, ◌&&◌, if◌then◌else◌, is_empty, arith,
}
use career_coordination_mcp.Prelude.Sorting.{any}
use career_coordination_mcp.Core.Double.{Double}
use career_coordination_mcp.Domain.MatchReport.{MatchReport, RequirementMatch}
use career_coordination_mcp.Constitution.Artifact.{
  warn, fail, block, ArtifactView, ArtifactEnvelope, artifact_type, view_type, match_report_view,
  token_ir_view, ValidationContext, accepted, needs_review, rejected, blocked,
}
use career_coordination_mcp.Constitution.Engine.{severity_is, validate}
use career_coordination_mcp.Constitution.Engine.Validate.{found_by, validate_lem}
use career_coordination_mcp.Constitution.Rules.{
  schema_001_id, has_atom_id, is_match_report, finding, finding_if, schema_match, schema_matches,
  schema_report, schema_001, evidence_match, evidence_matches, score_report,
  make_default_constitution,
}
use career_coordination_mcp.Constitution.Engine.Grades.{
  all, not_and, or_false, Grades, Grades-append,
}

module _ (d : Double) where
  open d use {Num, zero, lt, eq}

  -- A requirement match of the right shape: a text, no negative score, an atom exactly if matched.
  abbrev pub well_formed : RequirementMatch Num → Bool
  well_formed rm =
      not (is_empty rm.requirement_text)
      && (not (lt rm.best_score zero)
          && (if rm.matched
              then has_atom_id rm.contributing_atom_id
              else not (has_atom_id rm.contributing_atom_id)))

  -- A requirement match that is matched has its evidence.
  abbrev pub evidenced : RequirementMatch Num → Bool
  evidenced rm =
      if rm.matched
      then has_atom_id rm.contributing_atom_id && not (is_empty rm.evidence_tokens)
      else true

  schema_match-block :
      (i : ℕ) (rm : RequirementMatch Num)
      → (any (severity_is block) (schema_match d i rm) ≡ not (well_formed rm))
        × (any (severity_is fail) (schema_match d i rm) ≡ false)
        × (any (severity_is warn) (schema_match d i rm) ≡ false)
  unfolding schema_match
  schema_match-block i rm = ground arith

  schema_matches-Grades :
      (i : ℕ) (rms : List (RequirementMatch Num))
      → Grades (schema_matches d i rms) (not (all well_formed rms)) false false
  unfolding schema_matches
  schema_matches-Grades i [] = (refl, refl, refl)
  schema_matches-Grades i (rm ∷ rms) =
      let both =
        Grades-append (schema_match d i rm) (schema_matches d (i + 1) rms) (not (well_formed rm))
          false false (not (all well_formed rms)) false false (schema_match-block i rm)
          (schema_matches-Grades (i + 1) rms) in
      (both.0 ∙ not_and (well_formed rm) (all well_formed rms), both.1, both.2)

  schema_report-Grades :
      (report : MatchReport Num)
      → Grades
          (schema_report d report)
          (lt report.overall_score zero || not (all well_formed report.requirement_matches))
          false
          false
  unfolding schema_report
  schema_report-Grades report =
      Grades-append
        (finding_if (lt report.overall_score zero)
          (finding schema_001_id block (lit "overall_score is negative")))
        (schema_matches d 0 report.requirement_matches) (lt report.overall_score zero) false false
        (not (all well_formed report.requirement_matches)) false false (ground arith)
        (schema_matches-Grades 0 report.requirement_matches)

  evidence_match-Grades :
      (rm : RequirementMatch Num) → Grades (evidence_match d rm) false (not (evidenced rm)) false
  unfolding evidence_match
  evidence_match-Grades rm = ground arith

  evidence_matches-Grades :
      (rms : List (RequirementMatch Num))
      → Grades (evidence_matches d rms) false (not (all evidenced rms)) false
  unfolding evidence_matches
  evidence_matches-Grades [] = (refl, refl, refl)
  evidence_matches-Grades (rm ∷ rms) =
      let both =
        Grades-append (evidence_match d rm) (evidence_matches d rms) false (not (evidenced rm))
          false false (not (all evidenced rms)) false (evidence_match-Grades rm)
          (evidence_matches-Grades rms) in
      (both.0, both.1 ∙ not_and (evidenced rm) (all evidenced rms), both.2)

  score_report-Grades :
      (report : MatchReport Num)
      → Grades
          (score_report d report)
          false
          false
          (eq report.overall_score zero && not (is_empty report.requirement_matches))
  unfolding score_report
  score_report-Grades report = ground arith

  -- The envelope of a match report.
  abbrev pub enveloped : Str → MatchReport Num → ArtifactEnvelope Num
  enveloped id report = record {
    artifact_id = id;
    content = [];
    source_refs = [];
    artifact = some (match_report_view report);
  }

  default_findings :
      (id : Str) (report : MatchReport Num) (context : ValidationContext)
      → found_by (make_default_constitution d).rules (enveloped id report) context
        ≡ schema_report d report
          ++ (evidence_matches d report.requirement_matches ++ (score_report d report ++ []))
  unfolding make_default_constitution
  default_findings id report context = refl

  default-Grades :
      (id : Str) (report : MatchReport Num) (context : ValidationContext)
      → Grades
          (found_by (make_default_constitution d).rules (enveloped id report) context)
          (lt report.overall_score zero || not (all well_formed report.requirement_matches))
          (not (all evidenced report.requirement_matches))
          (eq report.overall_score zero && not (is_empty report.requirement_matches))
  default-Grades id report context = rw default_findings (
      let schema = schema_report-Grades report in
      let evidence = evidence_matches-Grades report.requirement_matches in
      let score = score_report-Grades report in
      let last =
        Grades-append (score_report d report) [] false false
          (eq report.overall_score zero && not (is_empty report.requirement_matches)) false false
          false score (refl, refl, refl) in
      let rest =
        Grades-append (evidence_matches d report.requirement_matches) (score_report d report ++ [])
          false (not (all evidenced report.requirement_matches)) false false false
          ((eq report.overall_score zero && not (is_empty report.requirement_matches)) || false)
          evidence (last.0, last.1, last.2) in
      let whole =
        Grades-append (schema_report d report)
          (evidence_matches d report.requirement_matches ++ (score_report d report ++ []))
          (lt report.overall_score zero || not (all well_formed report.requirement_matches)) false
          false false (not (all evidenced report.requirement_matches) || false)
          ((eq report.overall_score zero && not (is_empty report.requirement_matches)) || false)
          schema rest in
      (whole.0 ∙ or_false _, whole.1 ∙ or_false _, whole.2 ∙ or_false _))

  -- The verdict of the default constitution on a match report, without an override: `blocked` if the
  -- overall score is negative or a requirement match is not well formed; else `rejected` if a matched
  -- requirement has no atom or no evidence; else `needs_review` if the overall score is zero although
  -- there are requirements; else `accepted`.
  pub default_verdict :
      (id : Str) (report : MatchReport Num) (context : ValidationContext)
      → (validate (make_default_constitution d) (enveloped id report) context none).status ≡ (
          if lt report.overall_score zero || not (all well_formed report.requirement_matches)
          then blocked
          else if not (all evidenced report.requirement_matches)
          then rejected
          else if eq report.overall_score zero && not (is_empty report.requirement_matches)
          then needs_review
          else accepted)
  default_verdict id report context =
      let grades = default-Grades id report context in
      (validate_lem (make_default_constitution d) (enveloped id report) context none).2
      ∙ rw (grades.0, grades.1, grades.2)

  not_match_report-block :
      (envelope : ArtifactEnvelope Num) (context : ValidationContext)
      (view : Option (ArtifactView Num))
      → envelope.artifact ≡ view
      → is_match_report (artifact_type envelope) ≡ false
      → any (severity_is block) (found_by (make_default_constitution d).rules envelope context)
        ≡ true
  unfolding make_default_constitution schema_001 artifact_type view_type
  not_match_report-block envelope context none p h = rw p refl
  not_match_report-block envelope context (some (match_report_view r)) p h = ground (arith, p)
  not_match_report-block envelope context (some (token_ir_view ir hash text)) p h = rw p refl

  -- Under the default constitution an artifact that is no match report, or none at all, is blocked
  -- when there is no override.
  pub default_blocks_others :
      (envelope : ArtifactEnvelope Num) (context : ValidationContext)
      → is_match_report (artifact_type envelope) ≡ false
      → (validate (make_default_constitution d) envelope context none).status ≡ blocked
  default_blocks_others envelope context h =
      (validate_lem (make_default_constitution d) envelope context none).2
      ∙ rw (not_match_report-block envelope context envelope.artifact refl h) refl
