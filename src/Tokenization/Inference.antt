-- ===== src/Tokenization/Inference.antt =====
-- The stub of the inference tokenizer (src/tokenization/stub_inference_tokenizer.cpp).
pub mod Partition
pub mod Accepted
use career_coordination_mcp.Prelude.{Str, lit, Bool, some, List, [], ◌∷◌, if◌then◌else◌}
use career_coordination_mcp.Prelude.StringMap.{StringMap, assign}
use career_coordination_mcp.Prelude.StringSet.{contains, insert}
use career_coordination_mcp.Core.Normalization.{tokenize_ascii, default_min_length}
use career_coordination_mcp.Domain.TokenIr.{ResumeTokenIr, inference_assisted}
use career_coordination_mcp.Tokenization.Known.{known_skills, known_domains, known_roles}

unfoldable pub is_likely_skill : Str → Bool
unfolding contains
is_likely_skill token = contains known_skills token

unfoldable pub is_likely_domain : Str → Bool
unfolding contains
is_likely_domain token = contains known_domains token

unfoldable pub is_likely_role : Str → Bool
unfolding contains
is_likely_role token = contains known_roles token

-- The four sets of the loop
pub record Categories : Type 0 where
  pub skills : List Str
  pub domains : List Str
  pub roles : List Str
  pub entities : List Str

unfoldable pub classify : Categories → Str → Categories
unfolding is_likely_skill is_likely_domain is_likely_role insert
classify sets token =
    if is_likely_skill token
    then record sets { skills = insert sets.skills token }
    else if is_likely_domain token
    then record sets { domains = insert sets.domains token }
    else if is_likely_role token
    then record sets { roles = insert sets.roles token }
    else record sets { entities = insert sets.entities token }

unfoldable pub classify_all : Categories → List Str → Categories
unfolding classify
classify_all sets [] = sets
classify_all sets (token ∷ tokens) = classify_all (classify sets token) tokens

-- A category is stored unless it is empty
unfoldable pub store : StringMap (List Str) → Str → List Str → StringMap (List Str)
unfolding assign
store tokens category [] = tokens
store tokens category (token ∷ rest) = assign tokens category (token ∷ rest)

-- The categories of a resume
unfoldable pub categories : Str → Categories
unfolding tokenize_ascii classify_all
categories resume_md =
    classify_all (record { skills = []; domains = []; roles = []; entities = [] })
      (tokenize_ascii resume_md default_min_length)

-- `StubInferenceTokenizer::tokenize`
unfoldable pub infer : Str → Str → ResumeTokenIr
unfolding categories store
infer resume_md source_hash =
    let sets = categories resume_md in
    record {
      schema_version = lit "0.3";
      source_hash = source_hash;
      tokenizer = record {
        type = inference_assisted;
        model_id = some (lit "stub-inference-v1");
        prompt_version = some (lit "resume-tokenizer-stub-v1");
      };
      tokens =
          store
            (store (store (store [] (lit "skills") sets.skills) (lit "domains") sets.domains)
              (lit "roles") sets.roles)
            (lit "entities") sets.entities;
      spans = [];
    }
