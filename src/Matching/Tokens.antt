-- ===== src/Matching/Tokens.antt =====
-- The tokens that the matcher compares, and the text that it embeds (the helpers of
-- src/matching/matcher.cpp). `extract_intersection` is `std::set_intersection`, in `Prelude`.
use career_coordination_mcp.Prelude.{Str, lit, not, List, [], ◌∷◌, ◌++◌, if◌then◌else◌, is_empty}
use career_coordination_mcp.Prelude.StringSet.{insert_all}
use career_coordination_mcp.Core.Normalization.{tokenize_ascii, default_min_length}
use career_coordination_mcp.Domain.Atom.{ExperienceAtom}
use career_coordination_mcp.Domain.Opportunity.{Requirement, Opportunity}

-- The loop of `build_query_text`, from the text so far
unfoldable pub extend_query : Str → List Requirement → Str
extend_query query [] = query
extend_query query (req ∷ reqs) =
    extend_query ((if not (is_empty query) then query ++ lit " " else query) ++ req.text) reqs

unfoldable pub build_query_text : Opportunity → Str
unfolding extend_query
build_query_text opportunity = extend_query [] opportunity.requirements

unfoldable pub tokenize_field : Str → List Str
unfolding tokenize_ascii insert_all
tokenize_field text = insert_all [] (tokenize_ascii text default_min_length)

unfoldable pub combine_token_sets : List Str → List Str → List Str → List Str
unfolding insert_all
combine_token_sets a b c = insert_all (insert_all (insert_all [] a) b) c

-- The tokens of an atom: of its claim and its title, and its tags
unfoldable pub atom_tokens : ExperienceAtom → List Str
unfolding tokenize_field combine_token_sets
atom_tokens atom =
    combine_token_sets (tokenize_field atom.claim) (tokenize_field atom.title) atom.tags

-- The tokens of all requirements, one after another
unfoldable pub requirement_tokens : List Requirement → List Str
unfolding tokenize_field
requirement_tokens [] = []
requirement_tokens (req ∷ reqs) = tokenize_field req.text ++ requirement_tokens reqs
