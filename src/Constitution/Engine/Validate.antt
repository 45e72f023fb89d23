-- ===== src/Constitution/Engine/Validate.antt =====
-- What a validation reports, with and without an override.
use career_coordination_mcp.Prelude.{
  ℕ, ltb, ◌==◌, ◌||◌, not, lit, str_lt, ◌≡◌, ◌≢◌, refl, ◌∙◌, ◌↔◌, Str, Bool, true, false, Option,
  none, some, List, [], ◌∷◌, ◌++◌, sym, ap, ◌&&◌, if◌then◌else◌, str_eq, str_eq_iff, str_lt_asymm,
  arith,
}
use mathlib.Core.List.{Perm}
use career_coordination_mcp.Prelude.Sorting.{
  any, sort_by, any-sort_by, sort_by-perm, IsSortedBy, sort_by-IsSortedBy,
}
use career_coordination_mcp.Core.Sha256.{sha256_hex}
use career_coordination_mcp.Core.Hashing.{stable_hash64_hex}
use career_coordination_mcp.Constitution.Artifact.{
  ConstitutionalRule, FindingSeverity, pass, warn, fail, block, Finding, ArtifactEnvelope,
  ValidationContext, Constitution, ValidationStatus, accepted, needs_review, rejected, blocked,
  overridden, OverrideRequest,
}
use career_coordination_mcp.Constitution.Engine.{
  severity_rank, severity_is, compute_status_from_findings, finding_less, expected_hash,
  override_matches, apply_override, collect_findings, validate,
}
use career_coordination_mcp.Constitution.Engine.Status.{compute_status_lem}

finding_less_asymm : (a b : Finding) → finding_less a b ≡ true → finding_less b a ≡ false
unfolding finding_less
finding_less_asymm a b h = ground (arith, str_lt_asymm a.rule_id b.rule_id)

-- How grave a severity is.
abbrev gravity : FindingSeverity → ℕ
gravity block = 4
gravity fail = 3
gravity warn = 2
gravity pass = 1

-- `a` may stand before `b`: it is graver, or as grave and its rule is not behind that of `b`.
abbrev may_precede : Finding → Finding → Bool
may_precede a b =
    ltb (gravity b.severity) (gravity a.severity)
    || (gravity a.severity == gravity b.severity && not (str_lt b.rule_id a.rule_id))

abbrev Heads : Finding → List Finding → Type 0
Heads a [] = Unit
Heads a (b ∷ findings) = may_precede a b ≡ true

-- Each finding may stand before the next.
abbrev pub InOrder : List Finding → Type 0
InOrder [] = Unit
InOrder (a ∷ findings) = Heads a findings × InOrder findings

precedes_of_severities :
    (s t : FindingSeverity) (below : Bool)
    → (if ltb (severity_rank t) (severity_rank s)
        then false
        else if ltb (severity_rank s) (severity_rank t)
        then true
        else below)
      ≡ false
    → (ltb (gravity t) (gravity s) || (gravity s == gravity t && not below)) ≡ true
precedes_of_severities pass pass below h = rw h refl
precedes_of_severities pass warn below h = cc h
precedes_of_severities pass fail below h = cc h
precedes_of_severities pass block below h = cc h
precedes_of_severities warn pass below h = refl
precedes_of_severities warn warn below h = rw h refl
precedes_of_severities warn fail below h = cc h
precedes_of_severities warn block below h = cc h
precedes_of_severities fail pass below h = refl
precedes_of_severities fail warn below h = refl
precedes_of_severities fail fail below h = rw h refl
precedes_of_severities fail block below h = cc h
precedes_of_severities block pass below h = refl
precedes_of_severities block warn below h = refl
precedes_of_severities block fail below h = refl
precedes_of_severities block block below h = rw h refl

may_precede_of_less : (a b : Finding) → finding_less b a ≡ false → may_precede a b ≡ true
unfolding finding_less
may_precede_of_less a b h =
    precedes_of_severities a.severity b.severity (str_lt b.rule_id a.rule_id) h

InOrder-sorted : (findings : List Finding) → IsSortedBy finding_less findings → InOrder findings
InOrder-sorted [] h = tt
InOrder-sorted (a ∷ []) h = (tt, tt)
InOrder-sorted (a ∷ b ∷ findings) h =
    (may_precede_of_less a b h.0, InOrder-sorted (b ∷ findings) h.1)

-- A finding that the operator names: of severity `block`, of the rule of the override.
abbrev pub named_by : OverrideRequest → Finding → Bool
named_by override finding = severity_is block finding && str_eq finding.rule_id override.rule_id

any-override_matches :
    (id : Str) (override : OverrideRequest) (findings : List Finding)
    → any (override_matches id override) findings ≡ (
        any (named_by override) findings
        && str_eq override.payload_hash (expected_hash id override))
unfolding override_matches
any-override_matches id override [] = refl
any-override_matches id override (f ∷ fs) = ground (arith, any-override_matches id override fs)

blocked_if_named :
    (override : OverrideRequest) (findings : List Finding)
    → any (named_by override) findings ≡ true
    → any (severity_is block) findings ≡ true
blocked_if_named override [] h = cc
blocked_if_named override (f ∷ fs) h = ground (arith, blocked_if_named override fs)

compute_ne_overridden :
    (findings : List Finding) → compute_status_from_findings findings ≢ overridden
compute_ne_overridden findings h = ground (arith, compute_status_lem findings)

compute_of_block :
    (findings : List Finding)
    → any (severity_is block) findings ≡ true
    → compute_status_from_findings findings ≡ blocked
compute_of_block findings h = compute_status_lem findings ∙ rw h

apply_override_blocked :
    (id : Str) (override : OverrideRequest) (findings : List Finding) (status : ValidationStatus)
    → (any (override_matches id override) findings ≡ true → status ≡ blocked)
    → apply_override id (some override) findings status
      ≡ (if any (override_matches id override) findings then overridden else status)
unfolding apply_override
apply_override_blocked id override findings blocked h = refl
apply_override_blocked id override findings accepted h = ground arith
apply_override_blocked id override findings needs_review h = ground arith
apply_override_blocked id override findings rejected h = ground arith
apply_override_blocked id override findings overridden h = ground arith

-- The condition of an override, on the findings in any order.
abbrev takes_effect : Str → OverrideRequest → List Finding → Bool
takes_effect id override findings =
    any (named_by override) findings && str_eq override.payload_hash (expected_hash id override)

status_with :
    (id : Str) (override : OverrideRequest) (findings : List Finding)
    → apply_override id
        (some override)
        (sort_by finding_less findings)
        (compute_status_from_findings findings)
      ≡ (if takes_effect id override findings
          then overridden
          else compute_status_from_findings findings)
status_with id override findings =
    let condition : any (override_matches id override) (sort_by finding_less findings)
        ≡ takes_effect id override findings =
      any-sort_by finding_less (override_matches id override) findings
      ∙ any-override_matches id override findings in
    apply_override_blocked id override (sort_by finding_less findings)
      (compute_status_from_findings findings)
      (λ h.
        compute_of_block findings (blocked_if_named override findings (ground (arith, condition))))
    ∙ rw condition

-- What the rules find, one rule after the other; a null rule finds nothing.
abbrev pub found_by :
    {Num : Type 0}
    → List (Option (ConstitutionalRule Num))
    → ArtifactEnvelope Num
    → ValidationContext
    → List Finding
found_by [] envelope context = []
found_by (none ∷ rules) envelope context = found_by rules envelope context
found_by (some rule ∷ rules) envelope context =
    rule.validate envelope context ++ found_by rules envelope context

collect_findings_lem :
    {Num : Type 0} (rules : List (Option (ConstitutionalRule Num)))
    (envelope : ArtifactEnvelope Num) (context : ValidationContext)
    → collect_findings rules envelope context ≡ found_by rules envelope context
unfolding collect_findings
collect_findings_lem [] envelope context = refl
collect_findings_lem (none ∷ rules) envelope context = collect_findings_lem rules envelope context
collect_findings_lem (some rule ∷ rules) envelope context =
    ap (λ rest. rule.validate envelope context ++ rest)
      (collect_findings_lem rules envelope context)

module _ {Num : Type 0} (c : Constitution Num) (envelope : ArtifactEnvelope Num)
    (context : ValidationContext) where
  abbrev pub collected : List Finding
  collected = found_by c.rules envelope context

  -- A report, whatever its override, holds every finding of every rule and no other, the gravest first
  -- (`block`, `fail`, `warn`, `pass`) and those of one severity in ascending order of their rules'
  -- identifiers, and without an override its status is that of the gravest.
  pub validate_lem :
      (override : Option OverrideRequest)
      → Perm (validate c envelope context override).findings collected
        × InOrder (validate c envelope context override).findings
        × ((validate c envelope context none).status ≡ (
            if any (severity_is block) collected
            then blocked
            else if any (severity_is fail) collected
            then rejected
            else if any (severity_is warn) collected
            then needs_review
            else accepted))
  unfolding validate
  validate_lem override =
      let findings = collect_findings c.rules envelope context in
      rw (sym (collect_findings_lem c.rules envelope context)) (
        sort_by-perm finding_less findings,
        InOrder-sorted (sort_by finding_less findings)
            (sort_by-IsSortedBy finding_less finding_less_asymm findings),
        compute_status_lem findings,
      )

  -- An override takes effect exactly when a finding of severity `block` has the rule that it names and
  -- its payload hash is that of this artifact's identifier: `stable_hash64_hex` if it names the
  -- algorithm `stable_hash64`, and SHA-256 if it names any other. Otherwise the status is the one
  -- without it.
  pub override_exact :
      (override : OverrideRequest)
      → (((validate c envelope context (some override)).status ≡ overridden) ↔ (
          (any (named_by override) collected ≡ true)
          × (override.payload_hash ≡ (
              if str_eq override.binding_hash_alg (lit "stable_hash64")
              then stable_hash64_hex envelope.artifact_id
              else sha256_hex envelope.artifact_id))))
        × ((validate c envelope context (some override)).status ≢ overridden
            → (validate c envelope context (some override)).status
              ≡ (validate c envelope context none).status)
  unfolding validate expected_hash
  override_exact override =
      let id = envelope.artifact_id in
      let hash = str_eq_iff override.payload_hash (expected_hash id override) in
      let never = compute_ne_overridden collected in
      rw (collect_findings_lem c.rules envelope context, status_with)
        (
          ((λ h. ground (arith, hash, never)), λ h. ground (arith, hash, h.0, h.1)),
          λ h. ground arith,
        )
