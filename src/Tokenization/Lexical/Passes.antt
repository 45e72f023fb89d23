-- ===== src/Tokenization/Lexical/Passes.antt =====
-- What the tokenizer makes passes the rules on token IR.
use career_coordination_mcp.Prelude.{
  lit, ◌≡◌, refl, ◌∙◌, sym, Str, Bool, true, false, none, List, [], ◌∷◌, ◌||◌, if◌then◌else◌,
  append-nil, length, ltb, leb, str_eq, str_eq_refl, All, arith, Bool-cases, inl, inr,
}
use career_coordination_mcp.Prelude.StringMap.{assign}
use career_coordination_mcp.Prelude.StringSet.{contains, contains-insert_all}
use career_coordination_mcp.Prelude.StringSet.Members.{All→member}
use career_coordination_mcp.Core.Normalization.{tokenize_ascii}
use career_coordination_mcp.Core.Normalization.Tokens.{IsAlnum, IsToken, tokenize_ascii-IsToken}
use career_coordination_mcp.Constitution.Artifact.{ValidationContext, accepted, needs_review}
use career_coordination_mcp.Constitution.Engine.{validate}
use career_coordination_mcp.Constitution.Engine.Grades.{all}
use career_coordination_mcp.Constitution.TokenRules.Texts.{in_charset}
use career_coordination_mcp.Constitution.TokenRules.Verdict.{
  good_token, crowded, token_constitution, enveloped_ir, token_verdict,
}
use career_coordination_mcp.Tokenization.Lexical.{
  stop_words, tokenize_deterministic, remove_words, tokenize,
}

-- The tokens that end in the category "lexical".
abbrev pub lexical_tokens : Bool → Str → List Str
lexical_tokens filter text =
    if filter
    then remove_words stop_words (tokenize_deterministic text)
    else tokenize_deterministic text

all-in_charset : (token : Str) → All IsAlnum token → all in_charset token ≡ true
all-in_charset [] h = refl
all-in_charset (c ∷ cs) h = rw (h.0, all-in_charset cs h.1)

pub good_token-IsToken : (token : Str) → IsToken 2 token → good_token token ≡ true
good_token-IsToken token h =
    let long : leb 2 (length token) ≡ true = ground (arith, h.long_enough) in
    rw (long, all-in_charset token h.alnum)

-- A test that every member of a list passes.
pub all_of_members :
    (p : Str → Bool) (tokens : List Str)
    → ((z : Str) → contains tokens z ≡ true → p z ≡ true)
    → all p tokens ≡ true
unfolding contains
all_of_members p [] h = refl
all_of_members p (token ∷ tokens) h =
    rw (h token (rw str_eq_refl), all_of_members p tokens (λ z m. h z (ground arith)))

remove_words-member :
    (words tokens : List Str) (z : Str)
    → contains (remove_words words tokens) z ≡ true
    → contains tokens z ≡ true
unfolding remove_words contains
remove_words-member words [] z m = m
remove_words-member words (token ∷ tokens) z m = elim (Bool-cases (contains words token)) [
  | inl stop ↦
      let below : contains (remove_words words tokens) z ≡ true = rw stop at m in
      ground (arith, remove_words-member words tokens z below)
  | inr kept ↦
      let here : (str_eq token z || contains (remove_words words tokens) z) ≡ true = rw kept at m in
      ground (arith, remove_words-member words tokens z)
]

tokenize_deterministic-member :
    (text z : Str)
    → contains (tokenize_deterministic text) z ≡ true
    → contains (tokenize_ascii text 2) z ≡ true
unfolding tokenize_deterministic contains
tokenize_deterministic-member text z m = sym (contains-insert_all [] (tokenize_ascii text 2) z) ∙ m

lexical_tokens-member :
    (filter : Bool) (text z : Str)
    → contains (lexical_tokens filter text) z ≡ true
    → contains (tokenize_ascii text 2) z ≡ true
lexical_tokens-member true text z m =
    tokenize_deterministic-member text z
      (remove_words-member stop_words (tokenize_deterministic text) z m)
lexical_tokens-member false text z m = tokenize_deterministic-member text z m

tokens_good : (filter : Bool) (text : Str) → all good_token (lexical_tokens filter text) ≡ true
tokens_good filter text = all_of_members good_token (lexical_tokens filter text) λ z m.
    good_token-IsToken z (
      All→member (IsToken 2) (tokenize_ascii text 2) z (tokenize_ascii-IsToken text 2)
        (lexical_tokens-member filter text z m))

tokens_derivable :
    (filter : Bool) (text : Str)
    → all (contains (tokenize_ascii text 2)) (lexical_tokens filter text) ≡ true
tokens_derivable filter text =
    all_of_members (contains (tokenize_ascii text 2)) (lexical_tokens filter text)
      λ z m. lexical_tokens-member filter text z m

crowded-lexical :
    (name : Str) (tokens : List Str) → crowded ((name, tokens) ∷ []) ≡ ltb 200 (length tokens)
crowded-lexical name tokens = ground (arith, append-nil tokens)

-- The token IR that the tokenizer makes of a resume passes the five rules for that resume and its
-- hash, with or without the filter of stop words: without an override the verdict is `needs_review` if
-- more than 200 tokens are left, and else `accepted`.
pub tokenize-verdict :
    (Num : Type 0) (c v id : Str) (filter : Bool) (text hash : Str) (context : ValidationContext)
    → (validate
        (token_constitution Num c v)
        (enveloped_ir Num id (tokenize filter text hash) hash text)
        context
        none).status
      ≡ (if ltb 200 (length (lexical_tokens filter text)) then needs_review else accepted)
unfolding tokenize assign
tokenize-verdict Num c v id filter text hash context =
    token_verdict Num c v id (tokenize filter text hash) hash text context
    ∙ rw (
      str_eq_refl hash,
      tokens_good filter text,
      tokens_derivable filter text,
      crowded-lexical (lit "lexical") (lexical_tokens filter text),
    )
