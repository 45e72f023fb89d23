-- ===== src/Domain/Atom.antt =====
-- Experience atoms (include/ccmcp/domain/experience_atom.h, src/domain/experience_atom.cpp).
pub mod Laws
use career_coordination_mcp.Prelude.{
  Str, lit, Bool, true, not, List, [], ◌∷◌, if◌then◌else◌, is_empty, str_eq, strs_eq,
}
use career_coordination_mcp.Core.Result.{Result, ok, err}
use career_coordination_mcp.Core.Normalization.{normalize_ascii_lower, normalize_tags, trim}

pub record ExperienceAtom : Type 0 where
  pub atom_id : Str
  pub domain : Str
  pub title : Str
  pub claim : Str
  pub tags : List Str
  pub verified : Bool
  pub evidence_refs : List Str

unfoldable pub verify : ExperienceAtom → Bool
verify atom = atom.verified

unfoldable pub validate : ExperienceAtom → Result Bool Str
validate atom =
    if is_empty atom.atom_id
    then err (lit "atom_id must not be empty")
    else if is_empty atom.claim
    then err (lit "claim must not be empty")
    else if not (strs_eq atom.tags (normalize_tags atom.tags))
    then err (lit "tags must be normalized (lowercase, sorted, deduplicated)")
    else if not (str_eq atom.domain (normalize_ascii_lower atom.domain))
    then err (lit "domain must be normalized (lowercase)")
    else ok true

-- The loop over the evidence references
unfoldable pub trim_refs : List Str → List Str
unfolding trim
trim_refs [] = []
trim_refs (ref ∷ refs) =
    let rest = trim_refs refs in
    let trimmed = trim ref in if not (is_empty trimmed) then trimmed ∷ rest else rest

unfoldable pub normalize_atom : ExperienceAtom → ExperienceAtom
unfolding normalize_ascii_lower normalize_tags trim_refs
normalize_atom atom = record atom {
  domain = normalize_ascii_lower (trim atom.domain);
  title = trim atom.title;
  claim = trim atom.claim;
  tags = normalize_tags atom.tags;
  evidence_refs = trim_refs atom.evidence_refs;
}
