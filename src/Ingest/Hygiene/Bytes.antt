-- ===== src/Ingest/Hygiene/Bytes.antt =====
-- A text without carriage returns, through lines and back.
use career_coordination_mcp.Prelude.{
  ℕ, ◌≡◌, refl, Str, Bool, true, false, ◌&&◌, List, [], ◌∷◌, ◌++◌, ◌==◌, All, arith, Bool-cases,
  inl, inr,
}
use career_coordination_mcp.Ingest.Hygiene.{line_endings, extend, getlines, unlines, back, pop_back}
use career_coordination_mcp.Ingest.Hygiene.Lines.{lacks}

pub lacks-line_endings :
    (after_cr : Bool) (text : Str) → lacks 13 (line_endings after_cr text) ≡ true
unfolding line_endings
lacks-line_endings after_cr [] = refl
lacks-line_endings after_cr (c ∷ text) =
    ground (arith, lacks-line_endings true text, lacks-line_endings false text)

pub line_endings_same : (text : Str) → lacks 13 text ≡ true → line_endings false text ≡ text
unfolding line_endings
line_endings_same [] h = refl
line_endings_same (c ∷ text) h = ground (arith, h, line_endings_same text (ground (arith, h)))

pub back-lacks : (text : Str) → lacks 13 text ≡ true → (back text == 13) ≡ false
unfolding back
back-lacks [] h = refl
back-lacks (c ∷ text) h = ground (arith, h, back-lacks text (ground (arith, h)))

abbrev pub Lacks : List Str → Type 0
Lacks lines = All (λ line. lacks 13 line ≡ true) lines

pub Lacks-extend :
    (c : ℕ) (lines : List Str) → (c == 13) ≡ false → Lacks lines → Lacks (extend c lines)
unfolding extend
Lacks-extend c [] n h = (rw n refl, tt)
Lacks-extend c (line ∷ lines) n h = (rw n h.0, h.1)

pub Lacks-getlines : (text : Str) → lacks 13 text ≡ true → Lacks (getlines text)
unfolding getlines
Lacks-getlines [] h = tt
Lacks-getlines (c ∷ text) h =
    let rest = Lacks-getlines text (ground (arith, h)) in
    elim (Bool-cases (c == 10)) [
      | inl feed ↦ rw feed (refl, rest)
      | inr other ↦ rw other (Lacks-extend c (getlines text) (ground (arith, h)) rest)
    ]

pub lacks-append : (xs ys : Str) → lacks 13 (xs ++ ys) ≡ (lacks 13 xs && lacks 13 ys)
lacks-append [] ys = refl
lacks-append (x ∷ xs) ys = ground (arith, lacks-append xs ys)

pub lacks-unlines : (lines : List Str) → Lacks lines → lacks 13 (unlines lines) ≡ true
unfolding unlines
lacks-unlines [] h = refl
lacks-unlines (line ∷ lines) h =
    ground (arith, lacks-append line (10 ∷ unlines lines), h.0, lacks-unlines lines h.1)

pub lacks-pop_back : (text : Str) → lacks 13 text ≡ true → lacks 13 (pop_back text) ≡ true
unfolding pop_back
lacks-pop_back [] h = refl
lacks-pop_back (c ∷ text) h = ground (arith, h, lacks-pop_back text (ground (arith, h)))
