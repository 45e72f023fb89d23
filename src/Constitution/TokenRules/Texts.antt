-- ===== src/Constitution/TokenRules/Texts.antt =====
-- What the rules on token IR compute of a text and its tokens, described apart from their code.
use career_coordination_mcp.Prelude.{
  ℕ, ◌+◌, sym, ◌==◌, Bool-cases, inl, inr, ◌≡◌, refl, Str, Bool, List, [], ◌∷◌, ◌++◌, ◌||◌, ◌&&◌,
  if◌then◌else◌, length, leb, arith,
}
use career_coordination_mcp.Prelude.StringMap.{StringMap}
use career_coordination_mcp.Core.Normalization.{tokenize_ascii, split, flush}
use career_coordination_mcp.Constitution.Engine.Grades.{all}
use career_coordination_mcp.Constitution.TokenRules.{
  all_lower_alnum, count_newlines, line_count, total_of, derivable_from,
}

-- A lower case ASCII letter or a digit.
abbrev pub in_charset : ℕ → Bool
in_charset c = (leb 97 c && leb c 122) || (leb 48 c && leb c 57)

pub all_lower_alnum_lem : (token : Str) → all_lower_alnum token ≡ all in_charset token
unfolding all_lower_alnum
all_lower_alnum_lem [] = refl
all_lower_alnum_lem (c ∷ cs) = ground (arith, all_lower_alnum_lem cs)

-- The lines of a text, which its line feeds separate; an empty text has none.
abbrev first_line : ℕ → List Str → List Str
first_line c [] = (c ∷ []) ∷ []
first_line c (line ∷ lines) = (c ∷ line) ∷ lines

abbrev separated : Str → List Str
separated [] = [] ∷ []
separated (c ∷ s) = let rest = separated s in if c == 10 then [] ∷ rest else first_line c rest

abbrev pub lines_of : Str → List Str
lines_of [] = []
lines_of (c ∷ s) = separated (c ∷ s)

length-first_line :
    (c : ℕ) (lines : List Str) (n : ℕ) → length lines ≡ 1 + n → length (first_line c lines) ≡ 1 + n
length-first_line c [] n h = absurd (omega arith)
length-first_line c (line ∷ lines) n h = h

length-separated : (s : Str) → length (separated s) ≡ 1 + count_newlines s
unfolding count_newlines
length-separated [] = refl
length-separated (c ∷ s) = elim (Bool-cases (c == 10)) [
  | inl feed ↦ rw feed (ground (arith, length-separated s))
  | inr other ↦ rw other (length-first_line c (separated s) (count_newlines s) (length-separated s))
]

pub line_count_lem : (text : Str) → line_count text ≡ length (lines_of text)
unfolding line_count
line_count_lem [] = refl
line_count_lem (c ∷ s) = sym (length-separated (c ∷ s))

-- The tokens of all categories in one list.
abbrev pub every_token : StringMap (List Str) → List Str
every_token [] = []
every_token ((name, tokens) ∷ categories) = tokens ++ every_token categories

length-append : (xs ys : List Str) → length (xs ++ ys) ≡ length xs + length ys
length-append [] ys = omega arith
length-append (x ∷ xs) ys = ground (arith, length-append xs ys)

pub total_of_lem :
    (categories : StringMap (List Str)) → total_of categories ≡ length (every_token categories)
unfolding total_of
total_of_lem [] = refl
total_of_lem ((name, tokens) ∷ categories) =
    ground (arith, length-append tokens (every_token categories), total_of_lem categories)

pub derivable_from_lem : (text : Str) → derivable_from text ≡ tokenize_ascii text 2
unfolding derivable_from tokenize_ascii split flush
derivable_from_lem [] = refl
derivable_from_lem (c ∷ text) = refl
