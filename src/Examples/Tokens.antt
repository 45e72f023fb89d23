-- ===== src/Examples/Tokens.antt =====
-- The tokenizer and the rules on token IR on a short resume.
use career_coordination_mcp.Prelude.{str_eq, str_lt, ℕ, ◌≡◌, lit, Str, true, false, none, [], ◌∷◌}
use career_coordination_mcp.Prelude.StringSet.{contains, insert, insert_all}
use career_coordination_mcp.Core.Normalization.{tokenize_ascii, split, flush, normalize_byte}
use career_coordination_mcp.Domain.TokenIr.{ResumeTokenIr, inference_assisted}
use career_coordination_mcp.Constitution.Artifact.{ValidationContext, accepted, rejected}
use career_coordination_mcp.Constitution.Engine.{validate}
use career_coordination_mcp.Constitution.TokenRules.Verdict.{
  token_constitution, enveloped_ir, token_verdict,
}
use career_coordination_mcp.Tokenization.Lexical.{tokenize, tokenize_deterministic, remove_words}
use career_coordination_mcp.Tokenization.Lexical.Passes.{tokenize-verdict}
use career_coordination_mcp.Tokenization.Inference.{
  is_likely_skill, is_likely_domain, is_likely_role, classify, classify_all, categories, store,
  infer,
}
use career_coordination_mcp.Tokenization.Inference.Partition.{inferred_partition}
use career_coordination_mcp.Tokenization.Inference.Accepted.{infer-verdict}

abbrev resume : Str
resume = lit "Go and SQL"

abbrev hash : Str
hash = lit "h1"

abbrev context : ValidationContext
context = record {
  constitution_id = lit "tokens";
  constitution_version = lit "0.3.0";
  ground_truth_refs = [];
  trace_id = lit "t";
}

-- A token that the resume does not have.
abbrev invented : ResumeTokenIr
invented = record {
  schema_version = lit "0.3";
  source_hash = hash;
  tokenizer = record { type = inference_assisted; model_id = none; prompt_version = none };
  tokens = (lit "skills", lit "rust" ∷ []) ∷ [];
  spans = [];
}

token_verdict_example :
    (validate
      (token_constitution ℕ (lit "tokens") (lit "0.3.0"))
      (enveloped_ir ℕ (lit "art-1") invented hash resume)
      context
      none).status
    ≡ rejected
unfolding contains tokenize_ascii split flush normalize_byte str_eq
token_verdict_example =
    token_verdict ℕ (lit "tokens") (lit "0.3.0") (lit "art-1") invented hash resume context

tokenize-verdict_example :
    (validate
      (token_constitution ℕ (lit "tokens") (lit "0.3.0"))
      (enveloped_ir ℕ (lit "art-1") (tokenize true resume hash) hash resume)
      context
      none).status
    ≡ accepted
unfolding tokenize_deterministic remove_words insert_all insert contains tokenize_ascii split flush
    normalize_byte str_eq str_lt
tokenize-verdict_example =
    tokenize-verdict ℕ (lit "tokens") (lit "0.3.0") (lit "art-1") true resume hash context

inferred_partition_example :
    let sets = categories resume in
    (contains sets.skills (lit "go") ≡ true)
    × (contains sets.domains (lit "go") ≡ false)
    × (contains sets.roles (lit "go") ≡ false)
    × (contains sets.entities (lit "go") ≡ false)
unfolding is_likely_skill is_likely_domain is_likely_role contains tokenize_ascii split flush
    normalize_byte str_eq
inferred_partition_example = inferred_partition resume (lit "go")

infer-verdict_example :
    (validate
      (token_constitution ℕ (lit "tokens") (lit "0.3.0"))
      (enveloped_ir ℕ (lit "art-1") (infer resume hash) hash resume)
      context
      none).status
    ≡ accepted
unfolding is_likely_skill is_likely_domain is_likely_role classify classify_all categories store
    infer insert contains tokenize_ascii split flush normalize_byte str_eq str_lt
infer-verdict_example =
    infer-verdict ℕ (lit "tokens") (lit "0.3.0") (lit "art-1") resume hash context
