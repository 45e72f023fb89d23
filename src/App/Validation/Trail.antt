-- ===== src/App/Validation/Trail.antt =====
-- What a run of the validation pipeline leaves in the audit trail, and when an override takes effect.
use career_coordination_mcp.Prelude.{
  ◌≡◌, ◌≢◌, ◌↔◌, refl, ◌∙◌, Str, lit, Bool, true, false, Option, none, some, List, [], ◌∷◌, ◌++◌,
  ◌&&◌, if◌then◌else◌, str_eq, arith, append_assoc,
}
use career_coordination_mcp.Prelude.Sorting.{any}
use career_coordination_mcp.Core.Double.{Double}
use career_coordination_mcp.Core.Sha256.{sha256_hex}
use career_coordination_mcp.Domain.MatchReport.{MatchReport}
use career_coordination_mcp.Storage.Audit.{EventJson}
use career_coordination_mcp.Constitution.Artifact.{
  Finding, ValidationStatus, accepted, needs_review, rejected, blocked, overridden, OverrideRequest,
}
use career_coordination_mcp.Constitution.Engine.{validate, expected_hash}
use career_coordination_mcp.Constitution.Engine.Validate.{
  named_by, collected, validate_lem, override_exact,
}
use career_coordination_mcp.Constitution.Rules.{make_default_constitution}
use career_coordination_mcp.App.Services.{IdGenerator, Clock, Services}
use career_coordination_mcp.App.Services.Events.{event_types, event_types-emit}
use career_coordination_mcp.App.Validation.{
  report_artifact_id, report_context, report_envelope, bind_override, emit_override,
  run_validation_pipeline,
}

abbrev pub is_overridden : ValidationStatus → Bool
is_overridden overridden = true
is_overridden _ = false

-- The override names the rule of a finding of severity `block`.
abbrev pub names_block : Option OverrideRequest → List Finding → Bool
names_block none findings = false
names_block (some override) findings = any (named_by override) findings

-- The events of a run with a status.
abbrev pub validation_events : ValidationStatus → List Str
validation_events status =
    lit "ValidationCompleted"
    ∷ (if is_overridden status then lit "ConstitutionOverrideApplied" ∷ [] else [])

events_together :
    (over same : Bool) (before : List Str)
    → (if over && same
        then (if same then before ++ lit "ValidationCompleted" ∷ [] else before)
          ++ lit "ConstitutionOverrideApplied" ∷ []
        else if same
        then before ++ lit "ValidationCompleted" ∷ []
        else before)
      ≡ (if same
          then before
            ++ lit "ValidationCompleted"
              ∷ (if over then lit "ConstitutionOverrideApplied" ∷ [] else [])
          else before)
events_together true true before = append_assoc before _ _
events_together true false before = refl
events_together false true before = refl
events_together false false before = refl

module _ (d : Double) where
  open d use {Num}

  module _ (report : MatchReport Num) (trace_id : Str) where
    -- What the rules find in the report.
    abbrev pub report_findings : List Finding
    report_findings =
        collected (make_default_constitution d) (report_envelope report) (report_context trace_id)

    abbrev status_under : Option OverrideRequest → ValidationStatus
    status_under override =
        (validate (make_default_constitution d) (report_envelope report) (report_context trace_id)
          (bind_override (report_artifact_id report.opportunity_id) override)).status

    status_without : status_under none ≢ overridden
    status_without h = ground (
      arith,
      (validate_lem (make_default_constitution d) (report_envelope report) (report_context trace_id)
          none).2,
      h,
    )

    status_under-override :
        (override : Option OverrideRequest)
        → (status_under override ≡ overridden) ↔ (names_block override report_findings ≡ true)
    unfolding expected_hash str_eq
    status_under-override none = ((λ h. absurd (status_without h)), λ h. cc)
    status_under-override (some override) =
        let exact =
          override_exact (make_default_constitution d) (report_envelope report)
            (report_context trace_id)
            (record override {
              binding_hash_alg = lit "sha256";
              payload_hash = sha256_hex (report_artifact_id report.opportunity_id);
            }) in
        ((λ h. (exact.0.0 h).0), λ h. exact.0.1 (h, refl))

module _ (d : Double) (dump : EventJson → Str) {Ids Time : Type 0} (id_gen : IdGenerator Ids)
    (clock : Clock Time) where
  open d use {Num}

  event_types-emit_override :
      (services : Services Ids Time) (trace_id : Str) (override : Option OverrideRequest)
      (status : ValidationStatus) (t : Str)
      → (override ≡ none → status ≢ overridden)
      → event_types
          (emit_override d dump id_gen clock services trace_id override status).audit_log
          t
        ≡ (if is_overridden status && str_eq trace_id t
            then event_types services.audit_log t ++ lit "ConstitutionOverrideApplied" ∷ []
            else event_types services.audit_log t)
  unfolding emit_override
  event_types-emit_override services trace_id none overridden t h = absurd (h refl refl)
  event_types-emit_override services trace_id (some override) overridden t h =
      event_types-emit dump id_gen clock services trace_id _ _ _ t
  event_types-emit_override services trace_id none accepted t h = refl
  event_types-emit_override services trace_id none needs_review t h = refl
  event_types-emit_override services trace_id none rejected t h = refl
  event_types-emit_override services trace_id none blocked t h = refl
  event_types-emit_override services trace_id (some override) accepted t h = refl
  event_types-emit_override services trace_id (some override) needs_review t h = refl
  event_types-emit_override services trace_id (some override) rejected t h = refl
  event_types-emit_override services trace_id (some override) blocked t h = refl

  -- The pipeline reports `overridden` exactly when an override is given that names the rule of a finding
  -- of severity `block` in the report: the caller's own hash and algorithm do not count. It adds to its
  -- own trace `ValidationCompleted` and, under an override, `ConstitutionOverrideApplied`, and nothing to
  -- any other trace.
  pub validation_trail :
      (report : MatchReport Num) (services : Services Ids Time) (trace_id : Str)
      (override : Option OverrideRequest) (t : Str)
      → let (validation_report, after) =
          run_validation_pipeline d dump id_gen clock report services trace_id override in
        ((validation_report.status ≡ overridden)
          ↔ (names_block override (report_findings d report trace_id) ≡ true))
        × (event_types after.audit_log t ≡ (
            if str_eq trace_id t
            then event_types services.audit_log t ++ validation_events validation_report.status
            else event_types services.audit_log t))
  unfolding run_validation_pipeline
  validation_trail report services trace_id override t =
      let status = status_under d report trace_id override in
      (
        status_under-override d report trace_id override,
        event_types-emit_override _ trace_id
              (bind_override (report_artifact_id report.opportunity_id) override) status t
              (bound_none override)
            ∙ rw (event_types-emit dump id_gen clock services trace_id _ _ _ t) (
                events_together (is_overridden status) (str_eq trace_id t)
                  (event_types services.audit_log t)),
      )
    where
      bound_none :
          (o : Option OverrideRequest)
          → bind_override (report_artifact_id report.opportunity_id) o ≡ none
          → status_under d report trace_id o ≢ overridden
      bound_none none e = status_without d report trace_id
      bound_none (some o) e = cc
