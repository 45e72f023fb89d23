-- ===== src/Constitution/TokenRules/Verdict.antt =====
-- The verdict of the five rules on a token IR.
use career_coordination_mcp.Prelude.{
  ℕ, ◌+◌, lit, ◌≡◌, refl, ◌∙◌, ap, Str, Bool, true, false, not, Option, none, some, List, [], ◌∷◌,
  ◌++◌, ◌||◌, ◌&&◌, if◌then◌else◌, length, ltb, leb, str_eq, arith,
}
use career_coordination_mcp.Prelude.Sorting.{any}
use career_coordination_mcp.Prelude.StringMap.{StringMap}
use career_coordination_mcp.Prelude.StringSet.{contains}
use career_coordination_mcp.Core.Normalization.{tokenize_ascii}
use career_coordination_mcp.Domain.TokenIr.{ResumeTokenIr, TokenSpan}
use career_coordination_mcp.Constitution.Artifact.{
  Finding, ArtifactEnvelope, artifact_type, view_type, token_ir_view, ValidationContext,
  ConstitutionalRule, Constitution, accepted, needs_review, rejected, blocked,
}
use career_coordination_mcp.Constitution.Engine.{validate}
use career_coordination_mcp.Constitution.Engine.Grades.{
  all, not_and, or_false, Grades, Grades-append,
}
use career_coordination_mcp.Constitution.Engine.Validate.{found_by, validate_lem}
use career_coordination_mcp.Constitution.TokenRules.Texts.{
  in_charset, all_lower_alnum_lem, lines_of, line_count_lem, every_token, total_of_lem,
  derivable_from_lem,
}
use career_coordination_mcp.Constitution.TokenRules.{
  on_token_ir, check_source_hash, check_token, check_derivable, over_tokens, over_categories,
  line_count, check_span, check_spans, check_categories, check_volume, derivable_from, tok_001,
  tok_002, tok_003, tok_004, tok_005,
}

-- A token of two lower case letters or digits or more.
abbrev pub good_token : Str → Bool
good_token token = leb 2 (length token) && all in_charset token

-- Lines are counted from 1, in order, and not beyond the text where there is one.
abbrev pub good_span : ℕ → TokenSpan → Bool
good_span max_line span =
    leb 1 span.start_line
    && (leb 1 span.end_line
        && (leb span.start_line span.end_line && (leb max_line 0 || leb span.end_line max_line)))

-- Every token of every category passes the test.
abbrev pub all_tokens : (Str → Bool) → StringMap (List Str) → Bool
all_tokens p categories = all (λ category. all p (category.1)) categories

-- A category, or all together, have too many tokens.
abbrev pub crowded : StringMap (List Str) → Bool
crowded categories =
    any (λ category. ltb 200 (length (category.1))) categories
    || ltb 500 (length (every_token categories))

-- A test of a token that gives no finding exactly for the good ones, and else of severity `fail`.
abbrev Detects : (Str → Str → List Finding) → (Str → Bool) → Type 0
Detects check good =
    (category token : Str) → Grades (check category token) false (not (good token)) false

check_token-Detects : Detects check_token good_token
unfolding check_token
check_token-Detects category token = ground (arith, all_lower_alnum_lem token)

check_derivable-Detects :
    (derivable : List Str) → Detects (check_derivable derivable) (contains derivable)
unfolding check_derivable
check_derivable-Detects derivable category token = ground arith

module _ (check : Str → Str → List Finding) (good : Str → Bool) (detects : Detects check good) where
  over_tokens-Grades :
      (category : Str) (tokens : List Str)
      → Grades (over_tokens check category tokens) false (not (all good tokens)) false
  unfolding over_tokens
  over_tokens-Grades category [] = (refl, refl, refl)
  over_tokens-Grades category (token ∷ tokens) =
      let both =
        Grades-append (check category token) (over_tokens check category tokens) false
          (not (good token)) false false (not (all good tokens)) false (detects category token)
          (over_tokens-Grades category tokens) in
      (both.0, both.1 ∙ not_and (good token) (all good tokens), both.2)

  over_categories-Grades :
      (categories : StringMap (List Str))
      → Grades (over_categories check categories) false (not (all_tokens good categories)) false
  unfolding over_categories
  over_categories-Grades [] = (refl, refl, refl)
  over_categories-Grades ((category, tokens) ∷ categories) =
      let both =
        Grades-append (over_tokens check category tokens) (over_categories check categories) false
          (not (all good tokens)) false false (not (all_tokens good categories)) false
          (over_tokens-Grades category tokens) (over_categories-Grades categories) in
      (both.0, both.1 ∙ not_and (all good tokens) (all_tokens good categories), both.2)

check_span-Grades :
    (max_line i : ℕ) (span : TokenSpan)
    → Grades (check_span max_line i span) false (not (good_span max_line span)) false
unfolding check_span
check_span-Grades max_line i span = ground arith

check_spans-Grades :
    (max_line i : ℕ) (spans : List TokenSpan)
    → Grades (check_spans max_line i spans) false (not (all (good_span max_line) spans)) false
unfolding check_spans
check_spans-Grades max_line i [] = (refl, refl, refl)
check_spans-Grades max_line i (span ∷ spans) =
    let both =
      Grades-append (check_span max_line i span) (check_spans max_line (i + 1) spans) false
        (not (good_span max_line span)) false false (not (all (good_span max_line) spans)) false
        (check_span-Grades max_line i span) (check_spans-Grades max_line (i + 1) spans) in
    (both.0, both.1 ∙ not_and (good_span max_line span) (all (good_span max_line) spans), both.2)

check_categories-Grades :
    (categories : StringMap (List Str))
    → Grades
        (check_categories categories)
        false
        false
        (any (λ category. ltb 200 (length (category.1))) categories)
unfolding check_categories
check_categories-Grades [] = (refl, refl, refl)
check_categories-Grades ((category, tokens) ∷ categories) =
    let rest = check_categories-Grades categories in ground (arith, rest.0, rest.1, rest.2)

check_volume-Grades :
    (ir : ResumeTokenIr) (hash text : Str)
    → Grades (check_volume ir hash text) false false (crowded ir.tokens)
unfolding check_volume
check_volume-Grades ir hash text =
    Grades-append (check_categories ir.tokens) _ false false
      (any (λ category. ltb 200 (length (category.1))) ir.tokens) false false
      (ltb 500 (length (every_token ir.tokens))) (check_categories-Grades ir.tokens)
      (ground (arith, total_of_lem ir.tokens))

check_source_hash-Grades :
    (ir : ResumeTokenIr) (hash text : Str)
    → Grades (check_source_hash ir hash text) (not (str_eq ir.source_hash hash)) false false
unfolding check_source_hash
check_source_hash-Grades ir hash text = ground arith

Grades-rules :
    (a b c e g : List Finding) (x y z v w : Bool)
    → Grades a x false false
    → Grades b false y false
    → Grades c false z false
    → Grades e false v false
    → Grades g false false w
    → Grades (a ++ (b ++ (c ++ (e ++ (g ++ []))))) x (y || (z || v)) w
Grades-rules a b c e g x y z v w ga gb gc ge gg =
    let last = Grades-append g [] false false w false false false gg (refl, refl, refl) in
    let fourth = Grades-append e (g ++ []) false v false false false (w || false) ge last in
    let third =
      Grades-append c (e ++ (g ++ [])) false z false false (v || false) (w || false) gc fourth in
    let second =
      Grades-append b (c ++ (e ++ (g ++ []))) false y false false (z || (v || false)) (w || false)
        gb third in
    let whole =
      Grades-append a (b ++ (c ++ (e ++ (g ++ [])))) x false false false (y || (z || (v || false)))
        (w || false) ga second in
    (whole.0 ∙ or_false x, whole.1 ∙ ap (λ r. y || (z || r)) (or_false v), whole.2 ∙ or_false w)

not_and_three : (a b c : Bool) → (not a || (not b || not c)) ≡ not (a && (b && c))
not_and_three true b c = not_and b c
not_and_three false b c = refl

module _ (Num : Type 0) where
  -- The five rules in their order.
  abbrev pub token_rules : List (Option (ConstitutionalRule Num))
  token_rules =
      some (record { rule_id = lit "TOK-001"; validate = tok_001 })
      ∷ some (record { rule_id = lit "TOK-002"; validate = tok_002 })
      ∷ some (record { rule_id = lit "TOK-003"; validate = tok_003 })
      ∷ some (record { rule_id = lit "TOK-004"; validate = tok_004 })
      ∷ some (record { rule_id = lit "TOK-005"; validate = tok_005 })
      ∷ []

  abbrev pub token_constitution : Str → Str → Constitution Num
  token_constitution id version = record {
    constitution_id = id;
    version = version;
    rules = token_rules;
  }

  -- The envelope of a token IR with the hash and the text of its resume.
  abbrev pub enveloped_ir : Str → ResumeTokenIr → Str → Str → ArtifactEnvelope Num
  enveloped_ir id ir hash text = record {
    artifact_id = id;
    content = [];
    source_refs = [];
    artifact = some (token_ir_view ir hash text);
  }

  token_findings :
      (c v id : Str) (ir : ResumeTokenIr) (hash text : Str) (context : ValidationContext)
      → found_by (token_constitution c v).rules (enveloped_ir id ir hash text) context
        ≡ check_source_hash ir hash text
          ++ (over_categories check_token ir.tokens
              ++ (check_spans (line_count text) 0 ir.spans
                  ++ (over_categories (check_derivable (derivable_from text)) ir.tokens
                      ++ (check_volume ir hash text ++ []))))
  unfolding tok_001 tok_002 tok_003 tok_004 tok_005 on_token_ir artifact_type view_type
  token_findings c v id ir hash text context = refl

  -- The verdict of the five rules on a token IR, without an override: `blocked` if its source hash is
  -- not that of the resume; else `rejected` if a token is too short or has another byte than a lower
  -- case letter or a digit, or a span is out of order or ends behind the last line of the text where
  -- it has lines, or a token is not one that `tokenize_ascii` makes of the text, even if it occurs
  -- inside one; else `needs_review` if a category has more than 200 tokens or all have more than 500;
  -- else `accepted`.
  pub token_verdict :
      (c v id : Str) (ir : ResumeTokenIr) (hash text : Str) (context : ValidationContext)
      → (validate (token_constitution c v) (enveloped_ir id ir hash text) context none).status ≡ (
          if not (str_eq ir.source_hash hash)
          then blocked
          else if not (
              all_tokens good_token ir.tokens
              && (all (good_span (length (lines_of text))) ir.spans
                  && all_tokens (contains (tokenize_ascii text 2)) ir.tokens))
          then rejected
          else if crowded ir.tokens
          then needs_review
          else accepted)
  token_verdict c v id ir hash text context =
      let grades =
        Grades-rules (check_source_hash ir hash text) (over_categories check_token ir.tokens)
          (check_spans (line_count text) 0 ir.spans)
          (over_categories (check_derivable (derivable_from text)) ir.tokens)
          (check_volume ir hash text) _ _ _ _ _ (check_source_hash-Grades ir hash text)
          (over_categories-Grades check_token good_token check_token-Detects ir.tokens)
          (check_spans-Grades (line_count text) 0 ir.spans)
          (over_categories-Grades (check_derivable (derivable_from text))
            (contains (derivable_from text)) (check_derivable-Detects (derivable_from text))
            ir.tokens)
          (check_volume-Grades ir hash text) in
      (validate_lem (token_constitution c v) (enveloped_ir id ir hash text) context none).2
      ∙ rw (token_findings, grades.0, grades.1, grades.2, not_and_three)
          (rw (line_count_lem text, derivable_from_lem text) refl)
