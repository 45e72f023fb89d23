-- ===== src/Constitution/Engine.antt =====
-- `ValidationEngine` (include/ccmcp/constitution/validation_engine.h,
-- src/constitution/validation_engine.cpp). `make_default_constitution` is in `Constitution.Rules`.
pub mod Status
pub mod Grades
pub mod Validate
use career_coordination_mcp.Prelude.{
  ℕ, Str, lit, Bool, true, false, Option, none, some, List, [], ◌∷◌, ◌++◌, ◌&&◌, if◌then◌else◌, ltb,
  str_eq, str_lt,
}
use career_coordination_mcp.Prelude.Sorting.{any, sort_by}
use career_coordination_mcp.Core.Sha256.{sha256_hex}
use career_coordination_mcp.Core.Hashing.{stable_hash64_hex}
use career_coordination_mcp.Constitution.Artifact.{
  FindingSeverity, pass, warn, fail, block, Finding, ArtifactEnvelope, ValidationContext,
  ConstitutionalRule, Constitution, ValidationStatus, accepted, needs_review, rejected, blocked,
  overridden, ValidationReport, OverrideRequest,
}

-- The value of the enumerator, by which severities are compared
abbrev pub severity_rank : FindingSeverity → ℕ
severity_rank pass = 0
severity_rank warn = 1
severity_rank fail = 2
severity_rank block = 3

-- The loop of `std::max_element`: `largest` is the first of the greatest so far
unfoldable pub max_severity : FindingSeverity → List Finding → FindingSeverity
max_severity largest [] = largest
max_severity largest (finding ∷ findings) =
    max_severity
      (if ltb (severity_rank largest) (severity_rank finding.severity)
        then finding.severity
        else largest)
      findings

unfoldable pub status_of : FindingSeverity → ValidationStatus
status_of block = blocked
status_of fail = rejected
status_of warn = needs_review
status_of pass = accepted

unfoldable pub compute_status_from_findings : List Finding → ValidationStatus
unfolding max_severity status_of
compute_status_from_findings [] = accepted
compute_status_from_findings (finding ∷ findings) =
    status_of (max_severity finding.severity findings)

-- The comparison of the sort: severity descending, then the identifier of the rule
unfoldable pub finding_less : Finding → Finding → Bool
finding_less a b =
    if ltb (severity_rank a.severity) (severity_rank b.severity)
    then false
    else if ltb (severity_rank b.severity) (severity_rank a.severity)
    then true
    else str_lt a.rule_id b.rule_id

-- The hash that an override has to name
unfoldable pub expected_hash : Str → OverrideRequest → Str
expected_hash artifact_id override =
    if str_eq override.binding_hash_alg (lit "stable_hash64")
    then stable_hash64_hex artifact_id
    else sha256_hex artifact_id

abbrev pub severity_eq : FindingSeverity → FindingSeverity → Bool
severity_eq pass pass = true
severity_eq warn warn = true
severity_eq fail fail = true
severity_eq block block = true
severity_eq _ _ = false

abbrev pub severity_is : FindingSeverity → Finding → Bool
severity_is severity finding = severity_eq finding.severity severity

-- The test of the loop that applies an override
unfoldable pub override_matches : Str → OverrideRequest → Finding → Bool
unfolding expected_hash
override_matches artifact_id override finding =
    severity_is block finding
    && (str_eq finding.rule_id override.rule_id
        && str_eq override.payload_hash (expected_hash artifact_id override))

-- The status after the override block
unfoldable pub apply_override :
    Str → Option OverrideRequest → List Finding → ValidationStatus → ValidationStatus
unfolding override_matches
apply_override artifact_id none findings status = status
apply_override artifact_id (some override) findings blocked =
    if any (override_matches artifact_id override) findings then overridden else blocked
apply_override artifact_id (some override) findings status = status

module _ {Num : Type 0} where
  -- The loop over the rules; a null rule is skipped
  unfoldable pub collect_findings :
      List (Option (ConstitutionalRule Num))
      → ArtifactEnvelope Num
      → ValidationContext
      → List Finding
  collect_findings [] envelope context = []
  collect_findings (none ∷ rules) envelope context = collect_findings rules envelope context
  collect_findings (some rule ∷ rules) envelope context =
      rule.validate envelope context ++ collect_findings rules envelope context

  unfoldable pub validate :
      Constitution Num
      → ArtifactEnvelope Num
      → ValidationContext
      → Option OverrideRequest
      → ValidationReport
  unfolding collect_findings compute_status_from_findings finding_less apply_override sort_by
  validate constitution envelope context override =
      let collected = collect_findings constitution.rules envelope context in
      let findings = sort_by finding_less collected in
      record {
        report_id = lit "report-" ++ envelope.artifact_id;
        trace_id = context.trace_id;
        artifact_id = envelope.artifact_id;
        constitution_id = context.constitution_id;
        constitution_version = context.constitution_version;
        status =
            apply_override envelope.artifact_id override findings
              (compute_status_from_findings collected);
        findings = findings;
      }
