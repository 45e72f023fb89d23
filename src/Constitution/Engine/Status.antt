-- ===== src/Constitution/Engine/Status.antt =====
-- The status is that of the gravest finding.
use career_coordination_mcp.Prelude.{
  ◌≡◌, refl, sym, ◌∙◌, ap, List, [], ◌∷◌, if◌then◌else◌, ltb, arith,
}
use career_coordination_mcp.Prelude.Sorting.{any}
use career_coordination_mcp.Constitution.Artifact.{
  FindingSeverity, pass, warn, fail, block, Finding, accepted, needs_review, rejected, blocked,
}
use career_coordination_mcp.Constitution.Engine.{
  severity_rank, severity_is, max_severity, status_of, compute_status_from_findings,
}

-- The precedence of severities, written out.
abbrev pub gravest : List Finding → FindingSeverity
gravest findings =
    if any (severity_is block) findings
    then block
    else if any (severity_is fail) findings
    then fail
    else if any (severity_is warn) findings
    then warn
    else pass

graver : FindingSeverity → FindingSeverity → FindingSeverity
graver a b = if ltb (severity_rank a) (severity_rank b) then b else a

graver-pass : (s : FindingSeverity) → graver s pass ≡ s
unfolding graver
graver-pass pass = refl
graver-pass warn = refl
graver-pass fail = refl
graver-pass block = refl

pass-graver : (s : FindingSeverity) → graver pass s ≡ s
unfolding graver
pass-graver pass = refl
pass-graver warn = refl
pass-graver fail = refl
pass-graver block = refl

graver_assoc : (a b c : FindingSeverity) → graver (graver a b) c ≡ graver a (graver b c)
unfolding graver
graver_assoc a b c = ground arith

gravest-cons : (f : Finding) (fs : List Finding) → gravest (f ∷ fs) ≡ graver f.severity (gravest fs)
unfolding graver
gravest-cons f fs = ground arith

max_severity-gravest :
    (s : FindingSeverity) (fs : List Finding) → max_severity s fs ≡ graver s (gravest fs)
unfolding max_severity graver
max_severity-gravest s [] = sym (graver-pass s)
max_severity-gravest s (f ∷ fs) =
    max_severity-gravest (graver s f.severity) fs
    ∙ graver_assoc s f.severity (gravest fs)
    ∙ ap (graver s) (sym (gravest-cons f fs))

status_of-gravest :
    (findings : List Finding)
    → status_of (gravest findings) ≡ (
        if any (severity_is block) findings
        then blocked
        else if any (severity_is fail) findings
        then rejected
        else if any (severity_is warn) findings
        then needs_review
        else accepted)
unfolding status_of
status_of-gravest findings = ground arith

-- The status is `blocked` if there is a finding of severity `block`, else `rejected` if there is one of
-- severity `fail`, else `needs_review` if there is one of severity `warn`, else `accepted`.
pub compute_status_lem :
    (findings : List Finding)
    → compute_status_from_findings findings ≡ (
        if any (severity_is block) findings
        then blocked
        else if any (severity_is fail) findings
        then rejected
        else if any (severity_is warn) findings
        then needs_review
        else accepted)
unfolding compute_status_from_findings
compute_status_lem [] = refl
compute_status_lem (f ∷ fs) =
    ap status_of (max_severity-gravest f.severity fs ∙ sym (gravest-cons f fs))
    ∙ status_of-gravest (f ∷ fs)
