-- ===== src/Examples/Verdicts.antt =====
-- Verdicts of the default constitution, with whole numbers for scores.
use mathlib.Core.List.{Perm}
use career_coordination_mcp.Prelude.{str_eq, ℕ, ◌≡◌, ◌≢◌, ◌↔◌, lit, true, none, some, List, [], ◌∷◌}
use career_coordination_mcp.Prelude.Sorting.{any}
use career_coordination_mcp.Examples.Numbers.{whole_numbers}
use career_coordination_mcp.Core.Sha256.{sha256_hex}
use career_coordination_mcp.Domain.MatchReport.{MatchReport, RequirementMatch}
use career_coordination_mcp.Constitution.Artifact.{
  warn, fail, Finding, ArtifactEnvelope, ValidationContext, rejected, blocked, overridden,
  OverrideRequest,
}
use career_coordination_mcp.Constitution.Engine.{validate}
use career_coordination_mcp.Constitution.Engine.Validate.{
  named_by, found_by, InOrder, collected, validate_lem, override_exact,
}
use career_coordination_mcp.Constitution.Rules.{make_default_constitution, finding}
use career_coordination_mcp.Constitution.Rules.Reports.{enveloped, default_verdict}

-- A requirement that is matched by an atom, without evidence.
abbrev unproved : RequirementMatch ℕ
unproved = record {
  requirement_text = lit "Go";
  matched = true;
  best_score = 1;
  contributing_atom_id = some (lit "atom-1");
  evidence_tokens = [];
}

abbrev report : MatchReport ℕ
report = record {
  opportunity_id = lit "opp-1";
  strategy = lit "deterministic_lexical_v0.1";
  overall_score = 1;
  requirement_matches = unproved ∷ [];
  missing_requirements = [];
  retrieval_stats = record {
    lexical_candidates = 1;
    embedding_candidates = 0;
    merged_candidates = 1;
  };
  matched_atoms = lit "atom-1" ∷ [];
  breakdown = record { lexical = 1; semantic = 0; bonus = 0; final_score = 1 };
}

abbrev context : ValidationContext
context = record {
  constitution_id = lit "default";
  constitution_version = lit "0.1.0";
  ground_truth_refs = [];
  trace_id = lit "t";
}

default_verdict_example :
    (validate
      (make_default_constitution whole_numbers)
      (enveloped whole_numbers (lit "a") report)
      context
      none).status
    ≡ rejected
default_verdict_example = default_verdict whole_numbers (lit "a") report context

-- An envelope without an artifact.
abbrev bare : ArtifactEnvelope ℕ
bare = record { artifact_id = lit "a"; content = []; source_refs = []; artifact = none }

abbrev override : OverrideRequest
override = record {
  binding_hash_alg = lit "sha256";
  operator_id = lit "op";
  payload_hash = sha256_hex (lit "a");
  reason = lit "seen";
  rule_id = lit "SCHEMA-001";
}

override_exact_example :
    (((validate (make_default_constitution whole_numbers) bare context (some override)).status
        ≡ overridden)
      ↔ ((any
              (named_by override)
              (found_by (make_default_constitution whole_numbers).rules bare context)
            ≡ true)
          × (override.payload_hash ≡ sha256_hex (lit "a"))))
    × ((validate (make_default_constitution whole_numbers) bare context (some override)).status
          ≢ overridden
        → (validate (make_default_constitution whole_numbers) bare context (some override)).status
          ≡ (validate (make_default_constitution whole_numbers) bare context none).status)
unfolding str_eq
override_exact_example =
    override_exact (make_default_constitution whole_numbers) bare context override

abbrev findings : List Finding
findings = finding (lit "R1") warn (lit "w") ∷ finding (lit "R2") fail (lit "f") ∷ []

validate_lem_example :
    Perm
      (validate (make_default_constitution whole_numbers) bare context (some override)).findings
      (collected (make_default_constitution whole_numbers) bare context)
    × InOrder
        (validate (make_default_constitution whole_numbers) bare context (some override)).findings
    × ((validate (make_default_constitution whole_numbers) bare context none).status ≡ blocked)
unfolding make_default_constitution
validate_lem_example =
    validate_lem (make_default_constitution whole_numbers) bare context (some override)
