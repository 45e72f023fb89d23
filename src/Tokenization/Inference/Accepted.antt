-- ===== src/Tokenization/Inference/Accepted.antt =====
-- What the stub of the inference tokenizer makes passes the rules on token IR.
use career_coordination_mcp.Prelude.{
  lit, ◌≡◌, refl, ◌∙◌, sym, Str, Bool, true, false, none, List, [], ◌∷◌, ◌&&◌, if◌then◌else◌,
  str_eq_refl, arith,
}
use career_coordination_mcp.Prelude.StringMap.{StringMap, assign}
use career_coordination_mcp.Prelude.StringSet.{contains}
use career_coordination_mcp.Prelude.StringSet.Members.{All→member}
use career_coordination_mcp.Core.Normalization.{tokenize_ascii}
use career_coordination_mcp.Core.Normalization.Tokens.{IsToken, tokenize_ascii-IsToken}
use career_coordination_mcp.Constitution.Artifact.{ValidationContext, accepted, needs_review}
use career_coordination_mcp.Constitution.Engine.{validate}
use career_coordination_mcp.Constitution.Engine.Grades.{all}
use career_coordination_mcp.Constitution.TokenRules.Verdict.{
  good_token, all_tokens, crowded, token_constitution, enveloped_ir, token_verdict,
}
use career_coordination_mcp.Tokenization.Lexical.Passes.{good_token-IsToken, all_of_members}
use career_coordination_mcp.Tokenization.Inference.{categories, store, infer}
use career_coordination_mcp.Tokenization.Inference.Partition.{inferred_partition}

all_tokens-assign :
    (p : Str → Bool) (m : StringMap (List Str)) (k : Str) (v : List Str)
    → all_tokens p m ≡ true
    → all p v ≡ true
    → all_tokens p (assign m k v) ≡ true
unfolding assign
all_tokens-assign p [] k v h e = rw e refl
all_tokens-assign p ((j, w) ∷ m) k v h e = ground (arith, all_tokens-assign p m k v, h, e)

all_tokens-store :
    (p : Str → Bool) (m : StringMap (List Str)) (k : Str) (v : List Str)
    → all_tokens p m ≡ true
    → all p v ≡ true
    → all_tokens p (store m k v) ≡ true
unfolding store
all_tokens-store p m k [] h e = h
all_tokens-store p m k (t ∷ v) h e = all_tokens-assign p m k (t ∷ v) h e

found_of : (a found b : Bool) → a ≡ (found && b) → a ≡ true → found ≡ true
found_of a true b e h = refl
found_of a false b e h = sym e ∙ h

-- A test that the tokens of the resume pass, the tokens of every category pass.
module _ (p : Str → Bool) (text hash : Str)
    (passes : (z : Str) → contains (tokenize_ascii text 2) z ≡ true → p z ≡ true) where
  all_inferred : all_tokens p (infer text hash).tokens ≡ true
  unfolding infer
  all_inferred =
      let sets = categories text in
      all_tokens-store p _ (lit "entities") sets.entities
        (all_tokens-store p _ (lit "roles") sets.roles
          (all_tokens-store p _ (lit "domains") sets.domains
            (all_tokens-store p [] (lit "skills") sets.skills refl (
              all_of_members p sets.skills
                λ z m. passes z (found_of _ _ _ ((inferred_partition text z).0) m)))
            (all_of_members p sets.domains
              λ z m. passes z (found_of _ _ _ ((inferred_partition text z).1) m)))
          (all_of_members p sets.roles
            λ z m. passes z (found_of _ _ _ ((inferred_partition text z).2) m)))
        (all_of_members p sets.entities
          λ z m. passes z (found_of _ _ _ ((inferred_partition text z).3) m))

-- The token IR that the stub makes of a resume passes the five rules for that resume and its hash:
-- without an override the verdict is `needs_review` if a category has more than 200 tokens or all have
-- more than 500, and else `accepted`.
pub infer-verdict :
    (Num : Type 0) (c v id text hash : Str) (context : ValidationContext)
    → (validate
        (token_constitution Num c v)
        (enveloped_ir Num id (infer text hash) hash text)
        context
        none).status
      ≡ (if crowded (infer text hash).tokens then needs_review else accepted)
unfolding infer
infer-verdict Num c v id text hash context =
    let good = all_inferred good_token text hash λ z m.
      good_token-IsToken z
        (All→member (IsToken 2) (tokenize_ascii text 2) z (tokenize_ascii-IsToken text 2) m) in
    let derivable = all_inferred (contains (tokenize_ascii text 2)) text hash λ z m. m in
    token_verdict Num c v id (infer text hash) hash text context
    ∙ rw (str_eq_refl hash, good, derivable) refl
