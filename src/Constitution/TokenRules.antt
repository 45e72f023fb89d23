-- ===== src/Constitution/TokenRules.antt =====
-- The rules on the token IR of a resume (src/constitution/rules/tok_001.cpp to tok_005.cpp with their
-- headers).
pub mod Texts
pub mod Verdict
use career_coordination_mcp.Prelude.{
  ℕ, ◌+◌, Str, lit, Bool, true, false, not, Option, none, some, List, [], ◌∷◌, ◌++◌, ◌&&◌,
  if◌then◌else◌, is_empty, length, ltb, ◌==◌, str_eq, to_string,
}
use career_coordination_mcp.Prelude.StringMap.{StringMap}
use career_coordination_mcp.Prelude.StringSet.{contains}
use career_coordination_mcp.Core.Normalization.{is_lower_alnum, tokenize_ascii}
use career_coordination_mcp.Domain.TokenIr.{ResumeTokenIr, TokenSpan}
use career_coordination_mcp.Constitution.Artifact.{
  FindingSeverity, warn, fail, block, Finding, ArtifactType, resume_token_ir, ArtifactEnvelope,
  artifact_type, as_token_ir, ValidationContext,
}
use career_coordination_mcp.Constitution.Rules.{finding, finding_if}

abbrev tok_001_id : Str
tok_001_id = lit "TOK-001"

abbrev tok_002_id : Str
tok_002_id = lit "TOK-002"

abbrev tok_003_id : Str
tok_003_id = lit "TOK-003"

abbrev tok_004_id : Str
tok_004_id = lit "TOK-004"

abbrev tok_005_id : Str
tok_005_id = lit "TOK-005"

abbrev pub min_token_length : ℕ
min_token_length = 2

abbrev pub max_total_tokens : ℕ
max_total_tokens = 500

abbrev pub max_category_tokens : ℕ
max_category_tokens = 200

abbrev pub is_token_ir : ArtifactType → Bool
is_token_ir resume_token_ir = true
is_token_ir _ = false

-- The head that the five rules share; what a rule then checks of the token IR, the hash and the text
unfoldable pub on_token_ir :
    {Num : Type 0}
    → Str
    → FindingSeverity
    → (ResumeTokenIr → Str → Str → List Finding)
    → ArtifactEnvelope Num
    → List Finding
unfolding artifact_type as_token_ir
on_token_ir rule_id severity check envelope = elim (envelope.artifact) [
  | none ↦ finding rule_id severity (lit "Missing artifact view") ∷ []
  | some view ↦
      if not (is_token_ir (artifact_type envelope))
      then finding rule_id severity (lit "Invalid artifact type (expected ResumeTokenIR)") ∷ []
      else elim (as_token_ir view) [
        | none ↦
            finding rule_id severity (lit "Failed to cast artifact to TokenIRArtifactView") ∷ []
        | some parts ↦ check parts.0 parts.1 parts.2
      ]
]

-- TOK-001, on the token IR and the hash
unfoldable pub check_source_hash : ResumeTokenIr → Str → Str → List Finding
check_source_hash token_ir canonical_hash text =
    finding_if (not (str_eq token_ir.source_hash canonical_hash))
      (finding tok_001_id block (lit "Token IR source_hash does not match canonical resume hash"))

-- The lambda of `std::all_of` in TOK-002, over the token
unfoldable pub all_lower_alnum : Str → Bool
all_lower_alnum [] = true
all_lower_alnum (c ∷ cs) = is_lower_alnum c && all_lower_alnum cs

abbrev token_in : Str → Str → Str
token_in token category = lit "Token '" ++ token ++ lit "' in category '" ++ category

-- The body of the inner loop of TOK-002
unfoldable pub check_token : Str → Str → List Finding
unfolding all_lower_alnum
check_token category token =
    if ltb (length token) min_token_length
    then finding tok_002_id fail
        (token_in token category ++ lit "' has length < " ++ to_string min_token_length)
      ∷ []
    else finding_if (not (all_lower_alnum token)) (
        finding tok_002_id fail
          (token_in token category ++ lit "' contains non-lowercase-ASCII-alphanumeric characters"))

-- The body of the inner loop of TOK-004
unfoldable pub check_derivable : List Str → Str → Str → List Finding
unfolding contains
check_derivable derivable_tokens category token =
    finding_if (not (contains derivable_tokens token)) (
      finding tok_004_id fail
        (token_in token category ++ lit "' is not derivable from canonical resume (hallucinated)"))

-- The two loops of TOK-002 and TOK-004: over the tokens of a category, and over the categories
unfoldable pub over_tokens : (Str → Str → List Finding) → Str → List Str → List Finding
over_tokens check category [] = []
over_tokens check category (token ∷ tokens) =
    check category token ++ over_tokens check category tokens

unfoldable pub over_categories : (Str → Str → List Finding) → StringMap (List Str) → List Finding
unfolding over_tokens
over_categories check [] = []
over_categories check ((category, token_list) ∷ categories) =
    over_tokens check category token_list ++ over_categories check categories

-- `std::count(..., '\n')`
unfoldable pub count_newlines : Str → ℕ
count_newlines [] = 0
count_newlines (c ∷ cs) = let rest = count_newlines cs in if c == 10 then rest + 1 else rest

-- The number of lines of the text, 0 where there is none
unfoldable pub line_count : Str → ℕ
unfolding count_newlines
line_count text = if not (is_empty text) then 1 + count_newlines text else 0

abbrev at_span : ℕ → Str
at_span i = lit "Span[" ++ to_string i

-- The body of the loop of TOK-003, at index `i`
unfoldable pub check_span : ℕ → ℕ → TokenSpan → List Finding
check_span max_line i span =
    finding_if (ltb span.start_line 1) (
      finding tok_003_id fail
        (at_span i ++ lit "] has start_line < 1 (" ++ to_string span.start_line ++ lit ")"))
    ++ (finding_if (ltb span.end_line 1) (
          finding tok_003_id fail
            (at_span i ++ lit "] has end_line < 1 (" ++ to_string span.end_line ++ lit ")"))
        ++ (finding_if (ltb span.end_line span.start_line) (
              finding tok_003_id fail (
                at_span i
                ++ lit "] has start_line ("
                ++ to_string span.start_line
                ++ lit ") > end_line ("
                ++ to_string span.end_line
                ++ lit ")"))
            ++ (if ltb 0 max_line
                then finding_if (ltb max_line span.end_line) (
                    finding tok_003_id fail (
                      at_span i
                      ++ lit "] has end_line ("
                      ++ to_string span.end_line
                      ++ lit ") > canonical resume line count ("
                      ++ to_string max_line
                      ++ lit ")"))
                else [])))

unfoldable pub check_spans : ℕ → ℕ → List TokenSpan → List Finding
unfolding check_span
check_spans max_line i [] = []
check_spans max_line i (span ∷ spans) =
    check_span max_line i span ++ check_spans max_line (i + 1) spans

-- TOK-005: `total_tokens`, and the findings on the categories and on the total
unfoldable pub total_of : StringMap (List Str) → ℕ
total_of [] = 0
total_of ((category, token_list) ∷ categories) = length token_list + total_of categories

unfoldable pub check_categories : StringMap (List Str) → List Finding
check_categories [] = []
check_categories ((category, token_list) ∷ categories) =
    finding_if (ltb max_category_tokens (length token_list)) (
      finding tok_005_id warn (
        lit "Category '"
        ++ category
        ++ lit "' has "
        ++ to_string (length token_list)
        ++ lit " tokens, exceeds threshold ("
        ++ to_string max_category_tokens
        ++ lit ")"))
    ++ check_categories categories

unfoldable pub check_volume : ResumeTokenIr → Str → Str → List Finding
unfolding total_of check_categories
check_volume token_ir hash text =
    let total_tokens = total_of token_ir.tokens in
    check_categories token_ir.tokens
    ++ finding_if (ltb max_total_tokens total_tokens) (
        finding tok_005_id warn (
          lit "Total token count ("
          ++ to_string total_tokens
          ++ lit ") exceeds threshold ("
          ++ to_string max_total_tokens
          ++ lit ")"))

-- `derivable_tokens` of TOK-004
unfoldable pub derivable_from : Str → List Str
unfolding tokenize_ascii
derivable_from text = if not (is_empty text) then tokenize_ascii text 2 else []

module _ {Num : Type 0} where
  -- `Tok001::Validate`
  unfoldable pub tok_001 : ArtifactEnvelope Num → ValidationContext → List Finding
  unfolding on_token_ir check_source_hash
  tok_001 envelope context = on_token_ir tok_001_id block check_source_hash envelope

  -- `Tok002::Validate`
  unfoldable pub tok_002 : ArtifactEnvelope Num → ValidationContext → List Finding
  unfolding on_token_ir over_categories check_token
  tok_002 envelope context =
      on_token_ir tok_002_id fail (λ ir hash text. over_categories check_token ir.tokens) envelope

  -- `Tok003::Validate`
  unfoldable pub tok_003 : ArtifactEnvelope Num → ValidationContext → List Finding
  unfolding on_token_ir check_spans line_count
  tok_003 envelope context =
      on_token_ir tok_003_id fail (λ ir hash text. check_spans (line_count text) 0 ir.spans)
        envelope

  -- `Tok004::Validate`
  unfoldable pub tok_004 : ArtifactEnvelope Num → ValidationContext → List Finding
  unfolding on_token_ir over_categories check_derivable derivable_from
  tok_004 envelope context =
      on_token_ir tok_004_id fail
        (λ ir hash text. over_categories (check_derivable (derivable_from text)) ir.tokens) envelope

  -- `Tok005::Validate`
  unfoldable pub tok_005 : ArtifactEnvelope Num → ValidationContext → List Finding
  unfolding on_token_ir check_volume
  tok_005 envelope context = on_token_ir tok_005_id warn check_volume envelope
