-- ===== src/App/Decisions/Summary.antt =====
-- What the summary of a validation report in a decision record says.
use career_coordination_mcp.Prelude.{
  ℕ, ◌+◌, ◌≡◌, ◌≢◌, ◌↔◌, refl, ap, ◌∙◌, Str, lit, Bool, true, false, none, List, [], ◌∷◌, ◌&&◌,
  ◌||◌, if◌then◌else◌, str_eq, arith, Bool-cases, inl, inr,
}
use career_coordination_mcp.Prelude.Sorting.{any, any-sort_by}
use career_coordination_mcp.Prelude.StringSet.{
  contains, insert, contains-insert, IsAscending, insert-IsAscending,
}
use career_coordination_mcp.Constitution.Artifact.{
  fail, block, Finding, ArtifactEnvelope, ValidationContext, Constitution, ValidationReport,
  ValidationStatus, accepted, needs_review, rejected, blocked,
}
use career_coordination_mcp.Constitution.Engine.{
  severity_is, finding_less, collect_findings, validate,
}
use career_coordination_mcp.Constitution.Engine.Status.{compute_status_lem}
use career_coordination_mcp.App.Decisions.{
  is_fail_or_block, is_warn, tally, summarize, summary_status,
}

abbrev pub count : (Finding → Bool) → List Finding → ℕ
count p [] = 0
count p (f ∷ findings) = (if p f then 1 else 0) + count p findings

-- The finding counts in the summary, and is of the rule.
abbrev pub graded : Str → Finding → Bool
graded id f = (is_fail_or_block f || is_warn f) && str_eq f.rule_id id

pub tally_lem :
    (fails warns : ℕ) (ids : List Str) (findings : List Finding)
    → IsAscending ids
    → let (f, w, out) = tally fails warns ids findings in
      (f ≡ fails + count is_fail_or_block findings)
      × (w ≡ warns + count is_warn findings)
      × IsAscending out
      × ((id : Str) → contains out id ≡ (contains ids id || any (graded id) findings))
unfolding tally
tally_lem fails warns ids [] h = (omega arith, omega arith, h, λ id. ground arith)
tally_lem fails warns ids (f ∷ findings) h = elim (Bool-cases (is_fail_or_block f || is_warn f)) [
  | inl counts ↦
      let (fs, ws, ascending, members) =
        tally_lem (fails + (if is_fail_or_block f then 1 else 0))
          (warns + (if is_warn f then 1 else 0)) (insert ids f.rule_id) findings
          (insert-IsAscending ids f.rule_id h) in
      rw counts (
        fs ∙ omega arith,
        ws ∙ omega arith,
        ascending,
        λ id. members id ∙ ground (arith, contains-insert ids f.rule_id id, counts),
      )
  | inr passes ↦
      let (fs, ws, ascending, members) = tally_lem fails warns ids findings h in
      rw passes (fs ∙ ground (arith, passes), ws ∙ ground (arith, passes), ascending, members)
]

none_counts :
    (p : Finding → Bool) (findings : List Finding)
    → (count p findings ≡ 0) ↔ (any p findings ≡ false)
none_counts p [] = ((λ h. refl), λ h. refl)
none_counts p (f ∷ findings) =
    let rest = none_counts p findings in ((λ h. ground (arith, rest)), λ h. ground (arith, rest))

any-fail_or_block :
    (findings : List Finding)
    → any is_fail_or_block findings
      ≡ (any (severity_is fail) findings || any (severity_is block) findings)
any-fail_or_block [] = refl
any-fail_or_block (f ∷ findings) = ground (arith, any-fail_or_block findings)

-- The first byte tells the names of the statuses apart.
abbrev initial : Str → ℕ
initial [] = 0
initial (c ∷ s) = c

abbrev graded_status : Bool → Bool → Bool → ValidationStatus
graded_status grave blocks warns =
    if grave
    then (if blocks then blocked else rejected)
    else if warns
    then needs_review
    else accepted

status_iff :
    (status : ValidationStatus) (grave blocks warns : Bool) (fail_count warn_count : ℕ)
    → status ≡ graded_status grave blocks warns
    → (fail_count ≡ 0) ↔ (grave ≡ false)
    → (warn_count ≡ 0) ↔ (warns ≡ false)
    → ((summary_status status ≡ lit "accepted") ↔ (fail_count + warn_count ≡ 0))
      × ((summary_status status ≡ lit "needs_review") ↔ ((fail_count ≡ 0) × (warn_count ≢ 0)))
unfolding summary_status
status_iff status true true warns f w e hf hw = rw e (
  ((λ h. omega (arith, ap initial h)), λ h. ground (arith, hf, hw, h)),
  ((λ h. omega (arith, ap initial h)), λ h. ground (arith, hf, hw, h)),
)
status_iff status true false warns f w e hf hw = rw e (
  ((λ h. omega (arith, ap initial h)), λ h. ground (arith, hf, hw, h)),
  ((λ h. omega (arith, ap initial h)), λ h. ground (arith, hf, hw, h)),
)
status_iff status false blocks true f w e hf hw = rw e (
  ((λ h. omega (arith, ap initial h)), λ h. ground (arith, hf, hw, h)),
  ((λ h. ground (arith, hf, hw)), λ h. refl),
)
status_iff status false blocks false f w e hf hw = rw e (
  ((λ h. ground (arith, hf, hw)), λ h. refl),
  ((λ h. omega (arith, ap initial h)), λ h. ground (arith, hf, hw, h)),
)

module _ {Num : Type 0} (c : Constitution Num) (envelope : ArtifactEnvelope Num)
    (context : ValidationContext) where
  abbrev report : ValidationReport
  report = validate c envelope context none

  status_counts :
      report.status
      ≡ graded_status
          (any is_fail_or_block report.findings)
          (any (severity_is block) report.findings)
          (any is_warn report.findings)
  unfolding validate
  status_counts =
      let findings = collect_findings c.rules envelope context in
      ground (
        arith,
        compute_status_lem findings,
        any-fail_or_block findings,
        any-sort_by finding_less is_fail_or_block findings,
        any-sort_by finding_less (severity_is block) findings,
        any-sort_by finding_less is_warn findings,
      )

  -- The summary of a report that was made without an override counts the findings of severity `fail` or
  -- `block` and those of severity `warn`, and names in ascending order exactly the rules of these. Its
  -- status is `accepted` exactly when both counts are 0, and `needs_review` exactly when only warnings
  -- are counted.
  pub summary_lem :
      let s = summarize report in
      (s.fail_count ≡ count is_fail_or_block report.findings)
      × (s.warn_count ≡ count is_warn report.findings)
      × IsAscending s.top_rule_ids
      × ((id : Str) → contains s.top_rule_ids id ≡ any (graded id) report.findings)
      × ((s.status ≡ lit "accepted") ↔ (s.fail_count + s.warn_count ≡ 0))
      × ((s.status ≡ lit "needs_review") ↔ ((s.fail_count ≡ 0) × (s.warn_count ≢ 0)))
  unfolding summarize contains
  summary_lem =
      let (fails, warns, ascending, members) = tally_lem 0 0 [] report.findings tt in
      let fs : (summarize report).fail_count ≡ count is_fail_or_block report.findings =
        omega (arith, fails) in
      let ws : (summarize report).warn_count ≡ count is_warn report.findings =
        omega (arith, warns) in
      let (is_accepted, is_reviewed) =
        status_iff report.status _ _ _ _ _ status_counts
          (rw fs (none_counts is_fail_or_block report.findings))
          (rw ws (none_counts is_warn report.findings)) in
      (fs, ws, ascending, members, is_accepted, is_reviewed)
