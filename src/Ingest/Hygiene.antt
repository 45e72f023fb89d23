-- ===== src/Ingest/Hygiene.antt =====
-- The normalization of ingested text (include/ccmcp/ingest/hygiene.h, src/ingest/hygiene.cpp), over
-- bytes. `std::isspace` is that of the C locale.
pub mod Lines
pub mod Clean
pub mod Headings
pub mod Spacing
pub mod Bytes
pub mod Passes
use career_coordination_mcp.Prelude.{
  ℕ, ◌+◌, Str, lit, Bool, true, false, not, ◌||◌, ◌&&◌, List, [], ◌∷◌, ◌++◌, map, ◌==◌, leb,
  if◌then◌else◌, is_empty,
}

-- `after_cr`: the byte before was a carriage return, which takes a line feed with it
unfoldable pub line_endings : Bool → Str → Str
line_endings after_cr [] = []
line_endings after_cr (c ∷ s) =
    if after_cr && c == 10
    then line_endings false s
    else if c == 13
    then 10 ∷ line_endings true s
    else c ∷ line_endings false s

unfoldable pub normalize_line_endings : Str → Str
unfolding line_endings
normalize_line_endings text = line_endings false text

-- A byte at the start of the first line
unfoldable pub extend : ℕ → List Str → List Str
extend c [] = (c ∷ []) ∷ []
extend c (line ∷ lines) = (c ∷ line) ∷ lines

-- The lines that `std::getline` reads until it fails
unfoldable pub getlines : Str → List Str
unfolding extend
getlines [] = []
getlines (c ∷ s) = let rest = getlines s in if c == 10 then [] ∷ rest else extend c rest

-- `result += line; result += '\n'`, for each of the lines
unfoldable pub unlines : List Str → Str
unlines [] = []
unlines (line ∷ lines) = line ++ 10 ∷ unlines lines

-- `text.back()`, 0 where there is none
unfoldable pub back : Str → ℕ
back [] = 0
back (c ∷ s) = if is_empty s then c else back s

unfoldable pub pop_back : Str → Str
pop_back [] = []
pop_back (c ∷ s) = let rest = pop_back s in if is_empty s then [] else c ∷ rest

-- "Remove final newline if original text didn't end with one"
unfoldable pub final_newline : Str → Str → Str
unfolding back pop_back
final_newline text result =
    if not (is_empty text) && (not (back text == 10) && not (back text == 13))
    then (if not (is_empty result) && back result == 10 then pop_back result else result)
    else result

-- `!std::isspace(ch)` from the end of a line
abbrev pub is_space : ℕ → Bool
is_space c = c == 32 || (leb 9 c && leb c 13)

unfoldable pub trim_end : Str → Str
trim_end [] = []
trim_end (c ∷ s) = let kept = trim_end s in if is_empty kept && is_space c then [] else c ∷ kept

unfoldable pub trim_trailing_whitespace : Str → Str
unfolding getlines unlines final_newline trim_end
trim_trailing_whitespace text = final_newline text (unlines (map trim_end (getlines text)))

-- The lines that are left after `blank_count` blank ones
unfoldable pub collapse : ℕ → List Str → List Str
collapse blank_count [] = []
collapse blank_count (line ∷ lines) =
    let more = collapse (blank_count + 1) lines in
    if is_empty line
    then (if leb (blank_count + 1) 2 then line ∷ more else more)
    else line ∷ collapse 0 lines

unfoldable pub collapse_blank_lines : Str → Str
unfolding getlines unlines final_newline collapse
collapse_blank_lines text = final_newline text (unlines (collapse 0 (getlines text)))

-- `rest.substr(rest.find_first_not_of(" \t"))`, empty where there is no such byte
unfoldable pub skip_blanks : Str → Str
skip_blanks [] = []
skip_blanks (c ∷ s) = let rest = skip_blanks s in if c == 32 || c == 9 then rest else c ∷ s

-- `line.substr(0, hash_end)` and `line.substr(hash_end)`
unfoldable pub hashes : Str → Str
hashes [] = []
hashes (c ∷ s) = let rest = hashes s in if c == b'#' then c ∷ rest else []

unfoldable pub after_hashes : Str → Str
after_hashes [] = []
after_hashes (c ∷ s) = let rest = after_hashes s in if c == b'#' then rest else c ∷ s

-- A round of the loop of `normalize_headings`. A line that does not start with a hash has none before
-- `hash_end`.
unfoldable pub heading : Str → Str
unfolding hashes after_hashes skip_blanks
heading line =
    if is_empty (hashes line) || is_empty (skip_blanks (after_hashes line))
    then line
    else hashes line ++ 32 ∷ skip_blanks (after_hashes line)

unfoldable pub normalize_headings : Str → Str
unfolding getlines unlines final_newline heading
normalize_headings text = final_newline text (unlines (map heading (getlines text)))

unfoldable pub apply_hygiene : Str → Str
unfolding normalize_line_endings trim_trailing_whitespace collapse_blank_lines normalize_headings
apply_hygiene text =
    normalize_headings
      (collapse_blank_lines (trim_trailing_whitespace (normalize_line_endings text)))
