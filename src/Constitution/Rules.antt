-- ===== src/Constitution/Rules.antt =====
-- The rules on match reports and the constitution that holds them
-- (src/constitution/rules/schema_001.cpp, evid_001.cpp and score_001.cpp with their headers, and
-- `make_default_constitution` of src/constitution/validation_engine.cpp).
pub mod Reports
use career_coordination_mcp.Prelude.{
  ℕ, ◌+◌, Str, lit, Bool, true, false, not, Option, none, some, List, [], ◌∷◌, ◌++◌, ◌&&◌,
  if◌then◌else◌, is_empty, to_string,
}
use career_coordination_mcp.Core.Double.{Double}
use career_coordination_mcp.Domain.MatchReport.{MatchReport, RequirementMatch}
use career_coordination_mcp.Constitution.Artifact.{
  FindingSeverity, warn, fail, block, Finding, ArtifactType, unknown, match_report, resume_token_ir,
  ArtifactEnvelope, artifact_type, as_match_report, ValidationContext, ConstitutionalRule,
  Constitution,
}

abbrev pub schema_001_id : Str
schema_001_id = lit "SCHEMA-001"

abbrev pub evid_001_id : Str
evid_001_id = lit "EVID-001"

abbrev pub score_001_id : Str
score_001_id = lit "SCORE-001"

abbrev pub finding : Str → FindingSeverity → Str → Finding
finding rule_id severity message = record {
  rule_id = rule_id;
  severity = severity;
  message = message;
  evidence_refs = [];
}

-- A test that pushes a finding
abbrev pub finding_if : Bool → Finding → List Finding
finding_if test f = if test then f ∷ [] else []

abbrev pub is_match_report : ArtifactType → Bool
is_match_report match_report = true
is_match_report _ = false

-- `contributing_atom_id.has_value() && !contributing_atom_id->value.empty()`
abbrev pub has_atom_id : Option Str → Bool
has_atom_id none = false
has_atom_id (some id) = not (is_empty id)

module _ (d : Double) where
  open d use {Num, zero, lt, eq}

  -- The body of the loop of SCHEMA-001, at index `i`
  unfoldable pub schema_match : ℕ → RequirementMatch Num → List Finding
  schema_match i rm =
      let at = lit "RequirementMatch[" ++ to_string i in
      let has_contributing_atom = has_atom_id rm.contributing_atom_id in
      finding_if (is_empty rm.requirement_text)
        (finding schema_001_id block (at ++ lit "] has empty requirement_text"))
      ++ (finding_if (lt rm.best_score zero)
            (finding schema_001_id block (at ++ lit "] has negative best_score"))
          ++ (if rm.matched && not has_contributing_atom
              then finding schema_001_id block
                  (at ++ lit "] is matched=true but missing contributing_atom_id")
                ∷ []
              else finding_if (not rm.matched && has_contributing_atom) (
                  finding schema_001_id block
                    (at ++ lit "] is matched=false but has contributing_atom_id"))))

  unfoldable pub schema_matches : ℕ → List (RequirementMatch Num) → List Finding
  unfolding schema_match
  schema_matches i [] = []
  schema_matches i (rm ∷ rms) = schema_match i rm ++ schema_matches (i + 1) rms

  unfoldable pub schema_report : MatchReport Num → List Finding
  unfolding schema_matches
  schema_report report =
      finding_if (lt report.overall_score zero)
        (finding schema_001_id block (lit "overall_score is negative"))
      ++ schema_matches 0 report.requirement_matches

  -- `Schema001::Validate`
  unfoldable pub schema_001 : ArtifactEnvelope Num → ValidationContext → List Finding
  unfolding schema_report artifact_type as_match_report
  schema_001 envelope context = elim (envelope.artifact) [
    | none ↦ finding schema_001_id block (lit "Missing artifact view") ∷ []
    | some view ↦
        if not (is_match_report (artifact_type envelope))
        then finding schema_001_id block (lit "Invalid artifact type (expected MatchReport)") ∷ []
        else elim (as_match_report view) [
          | none ↦
              finding schema_001_id block (lit "Failed to cast artifact to MatchReportView") ∷ []
          | some report ↦ schema_report report
        ]
  ]

  -- A rule that passes over what is no match report: the first two tests of EVID-001 and SCORE-001
  unfoldable pub on_match_report :
      (MatchReport Num → List Finding) → ArtifactEnvelope Num → List Finding
  unfolding artifact_type as_match_report
  on_match_report check envelope = elim (envelope.artifact) [
    | none ↦ []
    | some view ↦
        if not (is_match_report (artifact_type envelope))
        then []
        else elim (as_match_report view) [ none ↦ [] | some report ↦ check report ]
  ]

  -- The body of the loop of EVID-001
  unfoldable pub evidence_match : RequirementMatch Num → List Finding
  evidence_match rm =
      let of_requirement = lit "Matched requirement '" ++ rm.requirement_text in
      if not rm.matched
      then []
      else finding_if (not (has_atom_id rm.contributing_atom_id))
          (finding evid_001_id fail (of_requirement ++ lit "' missing contributing_atom_id"))
        ++ finding_if (is_empty rm.evidence_tokens)
            (finding evid_001_id fail (of_requirement ++ lit "' has no evidence_tokens"))

  unfoldable pub evidence_matches : List (RequirementMatch Num) → List Finding
  unfolding evidence_match
  evidence_matches [] = []
  evidence_matches (rm ∷ rms) = evidence_match rm ++ evidence_matches rms

  -- `Evid001::Validate`
  unfoldable pub evid_001 : ArtifactEnvelope Num → ValidationContext → List Finding
  unfolding evidence_matches on_match_report
  evid_001 envelope context =
      on_match_report (λ report. evidence_matches report.requirement_matches) envelope

  unfoldable pub score_report : MatchReport Num → List Finding
  score_report report =
      finding_if (eq report.overall_score zero && not (is_empty report.requirement_matches))
        (finding score_001_id warn (lit "All requirement scores are zero."))

  -- `Score001::Validate`
  unfoldable pub score_001 : ArtifactEnvelope Num → ValidationContext → List Finding
  unfolding score_report on_match_report
  score_001 envelope context = on_match_report score_report envelope

  unfoldable pub make_default_constitution : Constitution Num
  unfolding schema_001 evid_001 score_001
  make_default_constitution = record {
    constitution_id = lit "default";
    version = lit "0.1.0";
    rules =
        some (record { rule_id = schema_001_id; validate = schema_001 })
        ∷ some (record { rule_id = evid_001_id; validate = evid_001 })
        ∷ some (record { rule_id = score_001_id; validate = score_001 })
        ∷ [];
  }
