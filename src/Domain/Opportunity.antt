-- ===== src/Domain/Opportunity.antt =====
-- Requirements and opportunities (include/ccmcp/domain/requirement.h and opportunity.h,
-- src/domain/requirement.cpp and opportunity.cpp).
pub mod Laws
use career_coordination_mcp.Prelude.{
  Str, lit, Bool, true, false, not, List, [], ◌∷◌, ◌++◌, map, if◌then◌else◌, is_empty, strs_eq,
}
use career_coordination_mcp.Core.Result.{Result, ok, err}
use career_coordination_mcp.Core.Normalization.{normalize_tags, trim}

pub record Requirement : Type 0 where
  pub text : Str
  pub tags : List Str
  pub required : Bool

pub record Opportunity : Type 0 where
  pub opportunity_id : Str
  pub company : Str
  pub role_title : Str
  pub requirements : List Requirement
  pub source : Str

-- `Requirement::validate`
unfoldable pub validate_requirement : Requirement → Result Bool Str
validate_requirement req =
    if is_empty req.text
    then err (lit "requirement text must not be empty")
    else if not (is_empty req.tags)
    then (if not (strs_eq req.tags (normalize_tags req.tags))
        then err (lit "tags must be normalized (lowercase, sorted, deduplicated)")
        else ok true)
    else ok true

unfoldable pub normalize_requirement : Requirement → Requirement
unfolding trim normalize_tags
normalize_requirement req = record req { text = trim req.text; tags = normalize_tags req.tags }

-- The loop of `Opportunity::validate` over the requirements
unfoldable pub validate_requirements : List Requirement → Result Bool Str
unfolding validate_requirement
validate_requirements [] = ok true
validate_requirements (req ∷ reqs) = elim (validate_requirement req) [
  | ok _ ↦ validate_requirements reqs
  | err message ↦ err (lit "invalid requirement: " ++ message)
]

-- `Opportunity::validate`
unfoldable pub validate_opportunity : Opportunity → Result Bool Str
unfolding validate_requirements
validate_opportunity opp =
    if is_empty opp.opportunity_id
    then err (lit "opportunity_id must not be empty")
    else if is_empty opp.company
    then err (lit "company must not be empty")
    else if is_empty opp.role_title
    then err (lit "role_title must not be empty")
    else validate_requirements opp.requirements

unfoldable pub normalize_opportunity : Opportunity → Opportunity
unfolding normalize_requirement
normalize_opportunity opp = record opp {
  company = trim opp.company;
  role_title = trim opp.role_title;
  source = trim opp.source;
  requirements = map normalize_requirement opp.requirements;
}
