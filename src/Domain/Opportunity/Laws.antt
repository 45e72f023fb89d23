-- ===== src/Domain/Opportunity/Laws.antt =====
-- Which opportunities are valid, and what normalization makes of one.
use career_coordination_mcp.Prelude.{
  Str, ◌⊎◌, inl, inr, ap₂, strs_eq, Bool-cases, ◌≡◌, refl, sym, ◌↔◌, true, false, List, [], ◌∷◌,
  map, is_empty, All, strs_eq_iff, arith,
}
use career_coordination_mcp.Core.Result.{ok, err}
use career_coordination_mcp.Core.Normalization.{normalize_tags, trim}
use career_coordination_mcp.Core.Normalization.Tags.{
  IsNormalized, normalize_tags-IsNormalized, normalize_tags_of_IsNormalized, normalize_tags_lem,
}
use career_coordination_mcp.Core.Normalization.Trim.{trim-trim}
use career_coordination_mcp.Domain.Opportunity.{
  Requirement, Opportunity, validate_requirement, validate_requirements, normalize_requirement,
  validate_opportunity, normalize_opportunity,
}

-- What `Requirement::validate` asks.
pub record IsValidRequirement (req : Requirement) : Type 0 where
  pub stated : is_empty req.text ≡ false
  pub normalized : IsNormalized req.tags

IsNormalized-nil : IsNormalized []
IsNormalized-nil = record { tokens = tt; ascending = tt }

requirement_tests :
    (req : Requirement)
    → (validate_requirement req ≡ ok true) ↔ (
        (is_empty req.text ≡ false)
        × (is_empty req.tags ≡ false → req.tags ≡ normalize_tags req.tags))
unfolding validate_requirement
requirement_tests req =
    let t = strs_eq_iff req.tags (normalize_tags req.tags) in
    ((λ h. ground (arith, t)), λ h. ground (arith, t, h.1))

tags-IsNormalized :
    (tags : List Str) → (is_empty tags ≡ false → tags ≡ normalize_tags tags) → IsNormalized tags
tags-IsNormalized [] h = IsNormalized-nil
tags-IsNormalized (tag ∷ tags) h = (normalize_tags_lem (tag ∷ tags)).1.0 (sym (h refl))

validate_requirement_iff :
    (req : Requirement) → (validate_requirement req ≡ ok true) ↔ IsValidRequirement req
validate_requirement_iff req = (
  (λ h.
      let t = (requirement_tests req).0 h in
      record { stated = t.0; normalized = tags-IsNormalized req.tags t.1 }),
  λ v.
      (requirement_tests req).1
        (v.stated, λ _. sym (normalize_tags_of_IsNormalized req.tags v.normalized)),
)

requirement_ok :
    (req : Requirement)
    → (validate_requirement req ≡ ok true) ⊎ ((m : Str) × (validate_requirement req ≡ err m))
unfolding validate_requirement
requirement_ok req = elim (Bool-cases (is_empty req.text)) [
  | inl p ↦ rw (p, validate_requirement) (inr (_, refl))
  | inr p ↦ elim (Bool-cases (is_empty req.tags)) [
    | inl q ↦ rw (p, q, validate_requirement) (inl refl)
    | inr q ↦ elim (Bool-cases (strs_eq req.tags (normalize_tags req.tags))) [
      | inl r ↦ rw (p, q, r, validate_requirement) (inl refl)
      | inr r ↦ rw (p, q, r, validate_requirement) (inr (_, refl))
    ]
  ]
]

validate_requirements_iff :
    (reqs : List Requirement) → (validate_requirements reqs ≡ ok true) ↔ All IsValidRequirement reqs
unfolding validate_requirements
validate_requirements_iff [] = ((λ _. tt), λ _. refl)
validate_requirements_iff (req ∷ reqs) = elim (requirement_ok req) [
  | inl e ↦
      rw (e, validate_requirements)
        (
          (λ h. ((validate_requirement_iff req).0 e, (validate_requirements_iff reqs).0 h)),
          λ v. (validate_requirements_iff reqs).1 v.1,
        )
  | inr (m, e) ↦
      rw (e, validate_requirements) ((λ h. cc), λ v. cc (e, (validate_requirement_iff req).1 v.0))
]

-- What `Opportunity::validate` asks.
pub record IsValid (opp : Opportunity) : Type 0 where
  pub named : is_empty opp.opportunity_id ≡ false
  pub offered : is_empty opp.company ≡ false
  pub titled : is_empty opp.role_title ≡ false
  pub stated : All IsValidRequirement opp.requirements

opportunity_tests :
    (opp : Opportunity)
    → (validate_opportunity opp ≡ ok true) ↔ (
        (is_empty opp.opportunity_id ≡ false)
        × (is_empty opp.company ≡ false)
        × (is_empty opp.role_title ≡ false)
        × (validate_requirements opp.requirements ≡ ok true))
unfolding validate_opportunity
opportunity_tests opp = ((λ h. ground arith), λ h. ground arith)

-- An opportunity passes `validate` exactly when it has an identifier, a company and a role title,
-- and each of its requirements has a text and normalized tags.
pub validate_opportunity_iff :
    (opp : Opportunity) → (validate_opportunity opp ≡ ok true) ↔ IsValid opp
validate_opportunity_iff opp = (
  (λ h.
      let t = (opportunity_tests opp).0 h in
      record {
        named = t.0;
        offered = t.1;
        titled = t.2;
        stated = (validate_requirements_iff opp.requirements).0 t.3;
      }),
  λ v.
      (opportunity_tests opp).1
        (v.named, v.offered, v.titled, (validate_requirements_iff opp.requirements).1 v.stated),
)

-- A requirement whose text is not blank.
abbrev pub IsStated : Requirement → Type 0
IsStated req = is_empty (trim req.text) ≡ false

normalized-IsStated :
    (reqs : List Requirement)
    → All IsValidRequirement (map normalize_requirement reqs) ↔ All IsStated reqs
unfolding normalize_requirement
normalized-IsStated [] = ((λ _. tt), λ _. tt)
normalized-IsStated (req ∷ reqs) = (
  (λ h. (h.0.stated, (normalized-IsStated reqs).0 h.1)),
  λ h. (
    record { stated = h.0; normalized = normalize_tags-IsNormalized req.tags },
    (normalized-IsStated reqs).1 h.1,
  ),
)

-- A normalized opportunity is valid exactly when it has an identifier and its company, its role title
-- and the text of each requirement are not blank.
pub validate-normalize_opportunity :
    (opp : Opportunity)
    → (validate_opportunity (normalize_opportunity opp) ≡ ok true) ↔ (
        (is_empty opp.opportunity_id ≡ false)
        × (is_empty (trim opp.company) ≡ false)
        × (is_empty (trim opp.role_title) ≡ false)
        × All IsStated opp.requirements)
unfolding normalize_opportunity
validate-normalize_opportunity opp = (
  (λ h.
      let v = (validate_opportunity_iff (normalize_opportunity opp)).0 h in
      (v.named, v.offered, v.titled, (normalized-IsStated opp.requirements).0 v.stated)),
  λ h. (validate_opportunity_iff (normalize_opportunity opp)).1 (record {
    named = h.0;
    offered = h.1;
    titled = h.2;
    stated = (normalized-IsStated opp.requirements).1 h.3;
  }),
)

requirement_idempotent :
    (req : Requirement)
    → normalize_requirement (normalize_requirement req) ≡ normalize_requirement req
unfolding normalize_requirement
requirement_idempotent req = cc (
  trim-trim req.text,
  normalize_tags_of_IsNormalized (normalize_tags req.tags) (normalize_tags-IsNormalized req.tags),
)

requirements_idempotent :
    (reqs : List Requirement)
    → map normalize_requirement (map normalize_requirement reqs) ≡ map normalize_requirement reqs
requirements_idempotent [] = refl
requirements_idempotent (req ∷ reqs) =
    ap₂ ◌∷◌ (requirement_idempotent req) (requirements_idempotent reqs)

-- Normalizing an opportunity twice is normalizing it once.
pub normalize_opportunity_idempotent :
    (opp : Opportunity)
    → normalize_opportunity (normalize_opportunity opp) ≡ normalize_opportunity opp
unfolding normalize_opportunity
normalize_opportunity_idempotent opp = cc (
  trim-trim opp.company,
  trim-trim opp.role_title,
  trim-trim opp.source,
  requirements_idempotent opp.requirements,
)
