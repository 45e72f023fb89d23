-- ===== src/Ingest/Hygiene/Passes/Visible.antt =====
-- The passes change only whitespace.
use career_coordination_mcp.Prelude.{
  ℕ, ◌+◌, ◌≡◌, refl, ◌∙◌, sym, ap, Str, Bool, true, false, ◌||◌, List, [], ◌∷◌, ◌++◌, map, ◌==◌,
  if◌then◌else◌, is_empty, arith, append-nil, Bool-cases, inl, inr,
}
use career_coordination_mcp.Ingest.Hygiene.{
  line_endings, normalize_line_endings, getlines, unlines, back, pop_back, final_newline, trim_end,
  trim_trailing_whitespace, collapse, collapse_blank_lines, skip_blanks, hashes, after_hashes,
  heading, normalize_headings, apply_hygiene,
}
use career_coordination_mcp.Ingest.Hygiene.Lines.{unlines-getlines}
use career_coordination_mcp.Ingest.Hygiene.Clean.{is_whitespace}

-- The bytes that are not whitespace.
unfoldable pub visible : Str → Str
visible [] = []
visible (c ∷ s) = let rest = visible s in if is_whitespace c then rest else c ∷ rest

visible-append : (xs ys : Str) → visible (xs ++ ys) ≡ visible xs ++ visible ys
unfolding visible
visible-append [] ys = refl
visible-append (x ∷ xs) ys = ground (arith, visible-append xs ys)

visible-line_endings :
    (after_cr : Bool) (text : Str) → visible (line_endings after_cr text) ≡ visible text
unfolding visible line_endings
visible-line_endings after_cr [] = refl
visible-line_endings after_cr (c ∷ text) =
    ground (arith, visible-line_endings true text, visible-line_endings false text)

visible-trim_end : (line : Str) → visible (trim_end line) ≡ visible line
unfolding visible trim_end
visible-trim_end [] = refl
visible-trim_end (c ∷ line) = ground (arith, visible-trim_end line)

visible-skip_blanks : (s : Str) → visible (skip_blanks s) ≡ visible s
unfolding visible skip_blanks
visible-skip_blanks [] = refl
visible-skip_blanks (c ∷ s) = ground (arith, visible-skip_blanks s)

visible-hashes : (line : Str) → visible (hashes line) ++ visible (after_hashes line) ≡ visible line
unfolding visible hashes after_hashes
visible-hashes [] = refl
visible-hashes (c ∷ line) = ground (arith, visible-hashes line)

visible-heading : (line : Str) → visible (heading line) ≡ visible line
unfolding heading visible
visible-heading line =
    elim (Bool-cases (is_empty (hashes line) || is_empty (skip_blanks (after_hashes line)))) [
      | inl same ↦ rw same refl
      | inr headed ↦ rw headed (
          visible-append (hashes line) (32 ∷ skip_blanks (after_hashes line))
          ∙ rw visible-skip_blanks (visible-hashes line))
    ]

-- The bytes of lines that are not whitespace.
abbrev all_visible : List Str → Str
all_visible lines = visible (unlines lines)

all_visible-map :
    (f : Str → Str) (lines : List Str)
    → ((line : Str) → visible (f line) ≡ visible line)
    → all_visible (map f lines) ≡ all_visible lines
unfolding unlines visible
all_visible-map f [] h = refl
all_visible-map f (line ∷ lines) h =
    visible-append (f line) (10 ∷ unlines (map f lines))
    ∙ rw (h line, all_visible-map f lines h) (sym (visible-append line (10 ∷ unlines lines)))

all_visible-collapse :
    (n : ℕ) (lines : List Str) → all_visible (collapse n lines) ≡ all_visible lines
unfolding unlines visible collapse
all_visible-collapse n [] = refl
all_visible-collapse n ([] ∷ lines) = ground (arith, all_visible-collapse (n + 1) lines)
all_visible-collapse n ((c ∷ line) ∷ lines) =
    visible-append (c ∷ line) (10 ∷ unlines (collapse 0 lines))
    ∙ rw (all_visible-collapse 0 lines) (sym (visible-append (c ∷ line) (10 ∷ unlines lines)))

visible-pop_back : (s : Str) → (back s == 10) ≡ true → visible (pop_back s) ≡ visible s
unfolding visible pop_back back
visible-pop_back [] h = refl
visible-pop_back (c ∷ []) h = ground (arith, h)
visible-pop_back (c ∷ d ∷ s) h = ground (arith, visible-pop_back (d ∷ s) h)

visible-final_newline : (text result : Str) → visible (final_newline text result) ≡ visible result
unfolding final_newline
visible-final_newline text result =
    let pops : (back result == 10) ≡ true → visible (pop_back result) ≡ visible result =
      visible-pop_back result in
    ground (arith, pops)

all_visible-getlines : (text : Str) → all_visible (getlines text) ≡ visible text
unfolding visible
all_visible-getlines text =
    let fed : visible (text ++ 10 ∷ []) ≡ visible text =
      visible-append text (10 ∷ []) ∙ append-nil (visible text) in
    ap visible (unlines-getlines text) ∙ ground (arith, fed)

visible-pass :
    (text : Str) (lines : List Str)
    → all_visible lines ≡ all_visible (getlines text)
    → visible (final_newline text (unlines lines)) ≡ visible text
visible-pass text lines h =
    visible-final_newline text (unlines lines) ∙ h ∙ all_visible-getlines text

visible-trim : (text : Str) → visible (trim_trailing_whitespace text) ≡ visible text
unfolding trim_trailing_whitespace
visible-trim text =
    visible-pass text (map trim_end (getlines text))
      (all_visible-map trim_end (getlines text) visible-trim_end)

visible-collapse : (text : Str) → visible (collapse_blank_lines text) ≡ visible text
unfolding collapse_blank_lines
visible-collapse text =
    visible-pass text (collapse 0 (getlines text)) (all_visible-collapse 0 (getlines text))

visible-headings : (text : Str) → visible (normalize_headings text) ≡ visible text
unfolding normalize_headings
visible-headings text =
    visible-pass text (map heading (getlines text))
      (all_visible-map heading (getlines text) visible-heading)

pub visible-apply_hygiene : (text : Str) → visible (apply_hygiene text) ≡ visible text
unfolding apply_hygiene normalize_line_endings
visible-apply_hygiene text =
    let ended = normalize_line_endings text in
    let trimmed = trim_trailing_whitespace ended in
    visible-headings (collapse_blank_lines trimmed)
    ∙ visible-collapse trimmed
    ∙ visible-trim ended
    ∙ visible-line_endings false text
