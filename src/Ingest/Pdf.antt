-- ===== src/Ingest/Pdf.antt =====
-- The text of PDF files (src/ingest/format_adapter.cpp: `extract_text_from_pdf_content` and
-- `PdfAdapter::extract`). A position in a text is what is left of the text from there.
pub mod Literals
pub mod Loops
pub mod Empty
use career_coordination_mcp.Prelude.{
  ℕ, zero, suc, ◌+◌, ◌-◌, ◌%◌, ◌^◌, Str, lit, Bool, true, false, not, ◌&&◌, ◌||◌, Option, none,
  some, List, [], ◌∷◌, ◌++◌, ◌==◌, if◌then◌else◌, is_empty, is_none, str_eq, take, drop, length,
  ltb,
}
use career_coordination_mcp.Core.Result.{Result, ok, err}

-- From behind the first opening parenthesis on, `none` where there is none
unfoldable pub after_paren : Str → Option Str
after_paren [] = none
after_paren (c ∷ s) = let rest = after_paren s in if c == b'(' then some s else rest

-- A byte of the literal before what is inside it
abbrev pub keep : Str → Option (Str × Str) → Option (Str × Str)
keep bytes none = none
keep bytes (some (inside, rest)) = some (bytes ++ inside, rest)

-- The loop that finds the matching parenthesis, at a depth: what is before that parenthesis and what is
-- behind it, and `none` where the text ends first
unfoldable pub matching : ℕ → Str → Option (Str × Str)
matching depth [] = none
matching depth (c ∷ []) = if c == b')' && depth == 1 then some ([], []) else none
matching depth (c ∷ d ∷ s) =
    let escaped = matching depth s in
    let deeper = matching (depth + 1) (d ∷ s) in
    let shallower = matching (depth - 1) (d ∷ s) in
    let same = matching depth (d ∷ s) in
    if c == b'\\'
    then keep (c ∷ d ∷ []) escaped
    else if c == b'('
    then keep (c ∷ []) deeper
    else if c == b')'
    then (if depth == 1 then some ([], d ∷ s) else keep (c ∷ []) shallower)
    else keep (c ∷ []) same

-- What a backslash and the byte behind it stand for, where they stand for one byte
unfoldable pub escape_of : ℕ → Option ℕ
escape_of c =
    if c == b'n'
    then some 10
    else if c == b'r'
    then some 13
    else if c == b't'
    then some 9
    else if c == b'\\' || (c == b'(' || c == b')')
    then some c
    else none

-- The loop that unescapes a literal
unfoldable pub unescape : Str → Str
unfolding escape_of
unescape [] = []
unescape (c ∷ []) = c ∷ []
unescape (c ∷ d ∷ s) =
    let behind = unescape s in
    let next = unescape (d ∷ s) in
    if c == b'\\' then (elim (escape_of d) [ none ↦ c ∷ next | some e ↦ e ∷ behind ]) else c ∷ next

-- Text that is written before what a loop still writes
abbrev pub write : Str → Option Str → Option Str
write text none = none
write text (some more) = some (text ++ more)

-- `extract_text_from_pdf_content`; `none` is that the fuel does not suffice
unfoldable pub literals : ℕ → Str → Option Str
unfolding after_paren matching unescape
literals zero content = none
literals (suc fuel) content = elim (after_paren content) [
  | none ↦ some []
  | some start ↦ elim (matching 1 start) [
    | none ↦ literals fuel start
    | some (inside, rest) ↦ write (unescape inside ++ 32 ∷ []) (literals fuel rest)
  ]
]

unfoldable pub starts_with : Str → Str → Bool
starts_with [] s = true
starts_with (c ∷ word) [] = false
starts_with (c ∷ word) (d ∷ s) = let rest = starts_with word s in c == d && rest

-- `s.find(word)`: how many bytes stand before the first occurrence
unfoldable pub find : Str → Str → Option ℕ
unfolding starts_with
find word [] = if starts_with word [] then some 0 else none
find word (c ∷ s) =
    let later : Option ℕ = elim (find word s) [ none ↦ none | some n ↦ some (suc n) ] in
    if starts_with word (c ∷ s) then some 0 else later

-- The first word, and where there is none the second
abbrev find_either : Str → Str → Str → Option ℕ
find_either first second s = if is_none (find first s) then find second s else find first s

-- "\nstream\n" and "\nendstream", and both with a carriage return for each line feed
abbrev pub stream_start : Str → Option ℕ
stream_start = find_either (10 ∷ (lit "stream" ++ 10 ∷ [])) (13 ∷ (lit "stream" ++ 13 ∷ []))

abbrev pub stream_end : Str → Option ℕ
stream_end = find_either (10 ∷ lit "endstream") (13 ∷ lit "endstream")

-- `pdf_data.substr(stream_start + 8, stream_end - stream_start - 8)`, of what begins at
-- `stream_start` and has `n` bytes before `stream_end`; the count is a `size_t`
unfoldable pub stream_content : Str → ℕ → Str
stream_content s n = take ((n + 2 ^ 64 - 8) % 2 ^ 64) (drop 8 s)

-- The loop over the streams: what it adds to `extracted_text`; `none` is that the fuel does not suffice
unfoldable pub streams : ℕ → Str → Option Str
unfolding find stream_content literals
streams zero pdf_data = none
streams (suc fuel) pdf_data = if is_empty pdf_data then some [] else elim (stream_start pdf_data) [
  | none ↦ some []
  | some before ↦ elim (stream_end (drop before pdf_data)) [
    | none ↦ some []
    | some n ↦
        let content = stream_content (drop before pdf_data) n in
        elim (literals (length content + 1) content) [
          | none ↦ none
          | some text ↦ write text (streams fuel (drop (n + 10) (drop before pdf_data)))
        ]
  ]
]

abbrev pub title : Str
title = lit "# Resume" ++ 10 ∷ 10 ∷ []

-- `PdfAdapter::extract`. A result is an error by its message. The fuel is more than the bytes of the file.
unfoldable pub extract_pdf : Str → Result Str Str
unfolding streams str_eq
extract_pdf pdf_data =
    if is_empty pdf_data
    then err (lit "Empty input data")
    else if ltb (length pdf_data) 5 || not (str_eq (take 4 pdf_data) (lit "%PDF"))
    then err (lit "Invalid PDF: missing %PDF header")
    else elim (streams (length pdf_data + 1) pdf_data) [
      | none ↦ err []
      | some text ↦
          if str_eq (title ++ text) title
          then err (lit "No text content found in PDF")
          else ok (title ++ text)
    ]
