-- ===== src/Ingest/Hygiene/Passes.antt =====
-- What the passes make of texts.
pub mod Visible
use career_coordination_mcp.Prelude.{
  ℕ, ◌≡◌, refl, ◌∙◌, sym, ap, Str, Bool, true, false, not, ◌&&◌, List, [], ◌∷◌, ◌++◌, map, ◌==◌,
  if◌then◌else◌, is_empty, All, arith, Bool-cases, inl, inr,
}
use career_coordination_mcp.Ingest.Hygiene.{
  line_endings, normalize_line_endings, extend, getlines, unlines, back, pop_back, final_newline,
  trim_end, trim_trailing_whitespace, collapse, collapse_blank_lines, heading, normalize_headings,
  apply_hygiene,
}
use career_coordination_mcp.Ingest.Hygiene.Lines.{
  lacks, IsLine, getlines-IsLine, drop_blank, keeps_feed, getlines-final_newline,
  final_newline-same,
}
use career_coordination_mcp.Ingest.Hygiene.Clean.{
  is_trimmed, is_trimmed-trim_end, trim_end_of_trimmed, lacks-trim_end, short_runs,
  short_runs-collapse, collapse_of_short_runs, short_runs-drop_blank, All-drop_blank, All-collapse,
  All-map,
}
use career_coordination_mcp.Ingest.Hygiene.Passes.Visible.{visible, visible-apply_hygiene}
use career_coordination_mcp.Ingest.Hygiene.Bytes.{
  lacks-line_endings, line_endings_same, back-lacks, Lacks-extend, Lacks-getlines, lacks-append,
  lacks-unlines, lacks-pop_back, Lacks,
}
use career_coordination_mcp.Ingest.Hygiene.Spacing.{
  well_spaced, well_spaced-heading, heading_of_well_spaced,
}
use career_coordination_mcp.Ingest.Hygiene.Headings.{
  lacks-heading, is_trimmed-heading, short_runs-heading,
}

-- A pass that makes lines of the lines of a text.
abbrev pass : (List Str → List Str) → Str → Str
pass f text = final_newline text (unlines (f (getlines text)))

pass-lacks :
    (f : List Str → List Str) (text : Str)
    → Lacks (f (getlines text))
    → lacks 13 (pass f text) ≡ true
unfolding final_newline
pass-lacks f text h = ground (
  arith,
  lacks-unlines (f (getlines text)) h,
  lacks-pop_back (unlines (f (getlines text))) (lacks-unlines (f (getlines text)) h),
)

-- What such a pass establishes for the lines that it makes holds of its text's.
pass-lines :
    (Q : List Str → Type 0) (f : List Str → List Str) (text : Str)
    → ((lines : List Str) → Q lines → Q (drop_blank lines))
    → All IsLine (f (getlines text))
    → Q (f (getlines text))
    → Q (getlines (pass f text))
pass-lines Q f text closed h q =
    rw (getlines-final_newline text (f (getlines text)) h) (elim (Bool-cases (keeps_feed text)) [
      | inl kept ↦ rw kept q
      | inr dropped ↦ rw dropped (closed (f (getlines text)) q)
    ])

pass-same :
    (f : List Str → List Str) (text : Str)
    → lacks 13 text ≡ true
    → f (getlines text) ≡ getlines text
    → pass f text ≡ text
pass-same f text h e = rw e (final_newline-same text (back-lacks text h))

map-heading :
    (lines : List Str) → All (λ line. well_spaced line ≡ true) lines → map heading lines ≡ lines
map-heading [] h = refl
map-heading (line ∷ lines) h = rw (heading_of_well_spaced line h.0, map-heading lines h.1) refl

All-of :
    (P : Str → Type 0) (f : Str → Str) (lines : List Str)
    → ((line : Str) → P (f line))
    → All P (map f lines)
All-of P f [] h = tt
All-of P f (line ∷ lines) h = (h line, All-of P f lines h)

abbrev Trimmed : Str → Type 0
Trimmed line = is_trimmed line ≡ true

-- A text with line feeds for its line ends, whose lines do not end with whitespace, whose headings have
-- one space between hashes and text (`well_spaced`), and that has no three blank lines in succession.
pub record IsClean (text : Str) : Type 0 where
  pub no_cr : lacks 13 text ≡ true
  pub trimmed : All (λ line. is_trimmed line ≡ true) (getlines text)
  pub runs : short_runs 0 (getlines text) ≡ true
  pub headings : All (λ line. well_spaced line ≡ true) (getlines text)

normalize_line_endings-lacks : (text : Str) → lacks 13 (normalize_line_endings text) ≡ true
unfolding normalize_line_endings
normalize_line_endings-lacks text = lacks-line_endings false text

module _ (text : Str) (no_cr : lacks 13 text ≡ true) where
  trim-lacks : lacks 13 (trim_trailing_whitespace text) ≡ true
  unfolding trim_trailing_whitespace
  trim-lacks = pass-lacks (map trim_end) text (
      All-map (λ l. lacks 13 l ≡ true) trim_end (getlines text) (lacks-trim_end 13)
        (Lacks-getlines text no_cr))

  collapse-lacks : lacks 13 (collapse_blank_lines text) ≡ true
  unfolding collapse_blank_lines
  collapse-lacks =
      pass-lacks (collapse 0) text
        (All-collapse (λ l. lacks 13 l ≡ true) 0 (getlines text) (Lacks-getlines text no_cr))

  headings-lacks : lacks 13 (normalize_headings text) ≡ true
  unfolding normalize_headings
  headings-lacks = pass-lacks (map heading) text (
      All-map (λ l. lacks 13 l ≡ true) heading (getlines text) (λ l. lacks-heading 13 l refl)
        (Lacks-getlines text no_cr))

abbrev AllTrimmed : List Str → Type 0
AllTrimmed lines = All Trimmed lines

trim-Trimmed : (text : Str) → AllTrimmed (getlines (trim_trailing_whitespace text))
unfolding trim_trailing_whitespace
trim-Trimmed text =
    pass-lines AllTrimmed (map trim_end) text (All-drop_blank Trimmed)
      (All-map IsLine trim_end (getlines text) (lacks-trim_end 10) (getlines-IsLine text))
      (All-of Trimmed trim_end (getlines text) is_trimmed-trim_end)

-- What the lines have after the collapse, and after the headings.
abbrev Spaced : List Str → Type 0
Spaced lines = AllTrimmed lines × (short_runs 0 lines ≡ true)

abbrev Headed : List Str → Type 0
Headed lines = Spaced lines × All (λ line. well_spaced line ≡ true) lines

collapse-Spaced :
    (text : Str) → AllTrimmed (getlines text) → Spaced (getlines (collapse_blank_lines text))
unfolding collapse_blank_lines
collapse-Spaced text h =
    pass-lines Spaced (collapse 0) text
      (λ lines k. (All-drop_blank Trimmed lines k.0, short_runs-drop_blank 0 lines k.1))
      (All-collapse IsLine 0 (getlines text) (getlines-IsLine text))
      (All-collapse Trimmed 0 (getlines text) h, short_runs-collapse (getlines text))

headings-Headed :
    (text : Str) → Spaced (getlines text) → Headed (getlines (normalize_headings text))
unfolding normalize_headings
headings-Headed text h =
    pass-lines Headed (map heading) text
      (λ lines k. (
        (All-drop_blank Trimmed lines k.0.0, short_runs-drop_blank 0 lines k.0.1),
        All-drop_blank (λ l. well_spaced l ≡ true) lines k.1,
      ))
      (All-map IsLine heading (getlines text) (λ l. lacks-heading 10 l refl) (getlines-IsLine text))
      (
        (
          All-map Trimmed heading (getlines text) is_trimmed-heading h.0,
          short_runs-heading 0 (getlines text) ∙ h.1,
        ),
        All-of (λ l. well_spaced l ≡ true) heading (getlines text) well_spaced-heading,
      )

apply_hygiene-IsClean : (text : Str) → IsClean (apply_hygiene text)
unfolding apply_hygiene
apply_hygiene-IsClean text =
    let ended = normalize_line_endings text in
    let trimmed = trim_trailing_whitespace ended in
    let collapsed = collapse_blank_lines trimmed in
    let headed = headings-Headed collapsed (collapse-Spaced trimmed (trim-Trimmed ended)) in
    record {
      no_cr =
          headings-lacks collapsed
            (collapse-lacks trimmed (trim-lacks ended (normalize_line_endings-lacks text)));
      trimmed = headed.0.0;
      runs = headed.0.1;
      headings = headed.1;
    }

map-trim_end : (lines : List Str) → AllTrimmed lines → map trim_end lines ≡ lines
map-trim_end [] h = refl
map-trim_end (line ∷ lines) h = rw (trim_end_of_trimmed line h.0, map-trim_end lines h.1) refl

apply_hygiene_same : (text : Str) → IsClean text → apply_hygiene text ≡ text
unfolding apply_hygiene normalize_headings collapse_blank_lines trim_trailing_whitespace
    normalize_line_endings
apply_hygiene_same text h =
    rw
      (
        line_endings_same text h.no_cr,
        pass-same (map trim_end) text h.no_cr (map-trim_end (getlines text) h.trimmed),
        pass-same (collapse 0) text h.no_cr (collapse_of_short_runs 0 (getlines text) h.runs),
      )
      (pass-same (map heading) text h.no_cr (map-heading (getlines text) h.headings))

-- The hygiene of a text changes only whitespace. In its result no byte is a carriage return, no line
-- ends with whitespace, no three lines in succession are blank and every heading with a text has one
-- space between its hashes and the text. It keeps a text as it is that is of this kind, as its own
-- result is.
pub hygiene_lem :
    (text : Str)
    → (visible (apply_hygiene text) ≡ visible text)
      × IsClean (apply_hygiene text)
      × (IsClean text → apply_hygiene text ≡ text)
      × (apply_hygiene (apply_hygiene text) ≡ apply_hygiene text)
hygiene_lem text = (
  visible-apply_hygiene text,
  apply_hygiene-IsClean text,
  apply_hygiene_same text,
  apply_hygiene_same (apply_hygiene text) (apply_hygiene-IsClean text),
)
