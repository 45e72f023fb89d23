-- ===== src/Ingest/Hygiene/Lines.antt =====
-- Texts as lines.
use career_coordination_mcp.Prelude.{
  ℕ, ◌≡◌, refl, ◌∙◌, ap, Str, Bool, true, false, not, ◌||◌, ◌&&◌, List, [], ◌∷◌, ◌++◌, ◌==◌,
  if◌then◌else◌, is_empty, All, arith, append-nil, Bool-cases, inl, inr,
}
use career_coordination_mcp.Ingest.Hygiene.{
  extend, getlines, unlines, back, pop_back, final_newline,
}

-- The byte does not occur.
abbrev pub lacks : ℕ → Str → Bool
lacks b [] = true
lacks b (c ∷ s) = not (c == b) && lacks b s

-- A line without a line feed.
abbrev pub IsLine : Str → Type 0
IsLine line = lacks 10 line ≡ true

extend_line : (line : Str) (s : Str) → IsLine line → getlines (line ++ 10 ∷ s) ≡ line ∷ getlines s
unfolding getlines extend
extend_line [] s h = refl
extend_line (c ∷ line) s h = ground (arith, h, extend_line line s (ground (arith, h)))

pub getlines-unlines : (lines : List Str) → All IsLine lines → getlines (unlines lines) ≡ lines
unfolding getlines unlines
getlines-unlines [] h = refl
getlines-unlines (line ∷ lines) h =
    extend_line line (unlines lines) h.0 ∙ ap (λ r. line ∷ r) (getlines-unlines lines h.1)

extend-IsLine :
    (c : ℕ) (lines : List Str) → (c == 10) ≡ false → All IsLine lines → All IsLine (extend c lines)
unfolding extend
extend-IsLine c [] h k = (rw h refl, tt)
extend-IsLine c (line ∷ lines) h k = (rw h k.0, k.1)

pub getlines-IsLine : (text : Str) → All IsLine (getlines text)
unfolding getlines
getlines-IsLine [] = tt
getlines-IsLine (c ∷ s) = elim (Bool-cases (c == 10)) [
  | inl feed ↦ rw feed (refl, getlines-IsLine s)
  | inr other ↦ rw other (extend-IsLine c (getlines s) other (getlines-IsLine s))
]

-- The lines without the last, where that is empty.
unfoldable pub drop_blank : List Str → List Str
drop_blank [] = []
drop_blank (line ∷ lines) =
    let rest = drop_blank lines in if is_empty line && is_empty lines then [] else line ∷ rest

pub is_empty-append : (xs ys : Str) (y : ℕ) → is_empty (xs ++ y ∷ ys) ≡ false
is_empty-append [] ys y = refl
is_empty-append (x ∷ xs) ys y = refl

pop_back-append : (xs ys : Str) (y : ℕ) → pop_back (xs ++ y ∷ ys) ≡ xs ++ pop_back (y ∷ ys)
unfolding pop_back
pop_back-append [] ys y = refl
pop_back-append (x ∷ xs) ys y =
    rw (is_empty-append xs ys y) (ap (λ r. x ∷ r) (pop_back-append xs ys y))

-- A text without a line feed is one line, or none.
lone_line : (line : Str) → IsLine line → getlines line ≡ (if is_empty line then [] else line ∷ [])
unfolding getlines extend
lone_line [] h = refl
lone_line (c ∷ []) h = ground (arith, h)
lone_line (c ∷ d ∷ line) h = ground (arith, h, lone_line (d ∷ line) (ground (arith, h)))

pub getlines-pop :
    (lines : List Str) → All IsLine lines → getlines (pop_back (unlines lines)) ≡ drop_blank lines
unfolding getlines pop_back unlines drop_blank
getlines-pop [] h = refl
getlines-pop (line ∷ []) h =
    let all : pop_back (line ++ 10 ∷ []) ≡ line = pop_back-append line [] 10 ∙ append-nil line in
    ap getlines all ∙ lone_line line h.0 ∙ ground arith
getlines-pop (line ∷ next ∷ lines) h =
    let more = next ++ 10 ∷ unlines lines in
    let shorter : pop_back (line ++ 10 ∷ more) ≡ line ++ 10 ∷ pop_back more =
      pop_back-append line more 10 ∙ rw (is_empty-append next (unlines lines) 10) refl in
    ap getlines shorter
    ∙ extend_line line (pop_back more) h.0
    ∙ ap (λ r. line ∷ r) (getlines-pop (next ∷ lines) h.1)
    ∙ ground arith

-- A text with a line feed at its end.
abbrev pub terminated : Str → Str
terminated text = if is_empty text || back text == 10 then text else text ++ 10 ∷ []

unlines-extend :
    (c : ℕ) (lines : List Str)
    → unlines (extend c lines) ≡ c ∷ (if is_empty lines then 10 ∷ [] else unlines lines)
unfolding unlines extend
unlines-extend c [] = refl
unlines-extend c (line ∷ lines) = refl

is_empty-getlines : (text : Str) → is_empty (getlines text) ≡ is_empty text
unfolding getlines extend
is_empty-getlines [] = refl
is_empty-getlines (c ∷ s) = elim (Bool-cases (c == 10)) [
  | inl feed ↦ rw feed refl
  | inr other ↦ rw other (is_empty-extend (getlines s))
]
  where
    is_empty-extend : (lines : List Str) → is_empty (extend c lines) ≡ false
    is_empty-extend [] = refl
    is_empty-extend (line ∷ lines) = refl

pub unlines-getlines : (text : Str) → unlines (getlines text) ≡ terminated text
unfolding getlines unlines extend back
unlines-getlines [] = refl
unlines-getlines (c ∷ s) =
    ground (arith, unlines-getlines s, unlines-extend c (getlines s), is_empty-getlines s)

pub back-append : (xs ys : Str) (y : ℕ) → back (xs ++ y ∷ ys) ≡ back (y ∷ ys)
unfolding back
back-append [] ys y = refl
back-append (x ∷ xs) ys y = rw (is_empty-append xs ys y) (back-append xs ys y)

back-unlines : (line : Str) (lines : List Str) → back (unlines (line ∷ lines)) ≡ 10
unfolding unlines back
back-unlines line [] = back-append line [] 10
back-unlines line (next ∷ lines) =
    back-append line (unlines (next ∷ lines)) 10
    ∙ rw (is_empty-append next (unlines lines) 10) (back-unlines next lines)

-- The text keeps the line feed at the end of what is made from it.
abbrev pub keeps_feed : Str → Bool
keeps_feed text = is_empty text || (back text == 10 || back text == 13)

pub getlines-final_newline :
    (text : Str) (lines : List Str)
    → All IsLine lines
    → getlines (final_newline text (unlines lines))
      ≡ (if keeps_feed text then lines else drop_blank lines)
unfolding final_newline drop_blank unlines pop_back getlines
getlines-final_newline text [] h = ground arith
getlines-final_newline text (line ∷ lines) h =
    let fed : is_empty (unlines (line ∷ lines)) ≡ false = is_empty-append line (unlines lines) 10 in
    let made : final_newline text (unlines (line ∷ lines))
        ≡ (if keeps_feed text then unlines (line ∷ lines) else pop_back (unlines (line ∷ lines))) =
      ground (arith, fed, back-unlines line lines) in
    ap getlines made
    ∙ ground (arith, getlines-unlines (line ∷ lines) h, getlines-pop (line ∷ lines) h)

pub final_newline-same :
    (text : Str) → (back text == 13) ≡ false → final_newline text (unlines (getlines text)) ≡ text
unfolding final_newline
final_newline-same text h =
    let popped : pop_back (text ++ 10 ∷ []) ≡ text = pop_back-append text [] 10 ∙ append-nil text in
    ground
      (arith, unlines-getlines text, popped, back-append text [] 10, is_empty-append text [] 10, h)
