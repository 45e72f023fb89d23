-- ===== src/Ingest/Hygiene/Headings.antt =====
-- What the pass over headings makes of a line.
use career_coordination_mcp.Prelude.{
  ℕ, ◌+◌, ◌≡◌, refl, ◌∙◌, Str, true, false, ◌||◌, ◌&&◌, List, [], ◌∷◌, ◌++◌, map, ◌==◌, is_empty,
  arith, Bool-cases, inl, inr,
}
use career_coordination_mcp.Ingest.Hygiene.{skip_blanks, hashes, after_hashes, heading, back}
use career_coordination_mcp.Ingest.Hygiene.Lines.{lacks, is_empty-append, back-append}
use career_coordination_mcp.Ingest.Hygiene.Clean.{is_trimmed, short_runs}

pub is_empty-heading : (line : Str) → is_empty (heading line) ≡ is_empty line
unfolding heading hashes
is_empty-heading [] = refl
is_empty-heading (c ∷ line) =
    ground (arith, is_empty-append (hashes (c ∷ line)) (skip_blanks (after_hashes (c ∷ line))) 32)

lacks-append : (b : ℕ) (xs ys : Str) → lacks b (xs ++ ys) ≡ (lacks b xs && lacks b ys)
lacks-append b [] ys = refl
lacks-append b (x ∷ xs) ys = ground (arith, lacks-append b xs ys)

lacks-parts :
    (b : ℕ) (line : Str)
    → lacks b line ≡ true
    → (lacks b (hashes line) ≡ true) × (lacks b (after_hashes line) ≡ true)
unfolding hashes after_hashes
lacks-parts b [] h = (refl, refl)
lacks-parts b (c ∷ line) h =
    let (p, q) = lacks-parts b line (ground (arith, h)) in
    (ground (arith, h, p), ground (arith, h, q))

lacks-skip_blanks : (b : ℕ) (s : Str) → lacks b s ≡ true → lacks b (skip_blanks s) ≡ true
unfolding skip_blanks
lacks-skip_blanks b [] h = refl
lacks-skip_blanks b (c ∷ s) h = ground (arith, h, lacks-skip_blanks b s (ground (arith, h)))

pub lacks-heading :
    (b : ℕ) (line : Str) → (b == 32) ≡ false → lacks b line ≡ true → lacks b (heading line) ≡ true
unfolding heading
lacks-heading b line n h =
    let (p, q) = lacks-parts b line h in
    ground (
      arith,
      h,
      n,
      p,
      lacks-skip_blanks b (after_hashes line) q,
      lacks-append b (hashes line) (32 ∷ skip_blanks (after_hashes line)),
    )

hashes-append : (line s : Str) → hashes (hashes line ++ 32 ∷ s) ≡ hashes line
unfolding hashes
hashes-append [] s = refl
hashes-append (c ∷ line) s = ground (arith, hashes-append line s)

after_hashes-append : (line s : Str) → after_hashes (hashes line ++ 32 ∷ s) ≡ 32 ∷ s
unfolding hashes after_hashes
after_hashes-append [] s = refl
after_hashes-append (c ∷ line) s = ground (arith, after_hashes-append line s)

skip_blanks-skip_blanks : (s : Str) → skip_blanks (skip_blanks s) ≡ skip_blanks s
unfolding skip_blanks
skip_blanks-skip_blanks [] = refl
skip_blanks-skip_blanks (c ∷ s) = ground (arith, skip_blanks-skip_blanks s)

pub heading-heading : (line : Str) → heading (heading line) ≡ heading line
unfolding heading skip_blanks
heading-heading line =
    let r = skip_blanks (after_hashes line) in
    ground (
      arith,
      hashes-append line r,
      after_hashes-append line r,
      skip_blanks-skip_blanks (after_hashes line),
    )

-- What is left of a text after its start has the same last byte.
back-skip_blanks : (s : Str) → is_empty (skip_blanks s) ≡ false → back (skip_blanks s) ≡ back s
unfolding skip_blanks back
back-skip_blanks [] h = refl
back-skip_blanks (c ∷ []) h = ground (arith, h)
back-skip_blanks (c ∷ d ∷ s) h =
    let rest : is_empty (skip_blanks (d ∷ s)) ≡ false → back (skip_blanks (d ∷ s)) ≡ back (d ∷ s) =
      back-skip_blanks (d ∷ s) in
    ground (arith, h, rest)

back-after_hashes : (s : Str) → is_empty (after_hashes s) ≡ false → back (after_hashes s) ≡ back s
unfolding after_hashes back
back-after_hashes [] h = refl
back-after_hashes (c ∷ []) h = ground (arith, h)
back-after_hashes (c ∷ d ∷ s) h =
    let rest : is_empty (after_hashes (d ∷ s)) ≡ false
        → back (after_hashes (d ∷ s)) ≡ back (d ∷ s) =
      back-after_hashes (d ∷ s) in
    ground (arith, h, rest)

after_something :
    (line : Str)
    → is_empty (skip_blanks (after_hashes line)) ≡ false
    → is_empty (after_hashes line) ≡ false
unfolding skip_blanks
after_something line h = go (after_hashes line) h
  where
    go : (s : Str) → is_empty (skip_blanks s) ≡ false → is_empty s ≡ false
    go [] k = k
    go (c ∷ s) k = refl

pub is_trimmed-heading : (line : Str) → is_trimmed line ≡ true → is_trimmed (heading line) ≡ true
unfolding heading back
is_trimmed-heading line h =
    let r = skip_blanks (after_hashes line) in
    elim (Bool-cases (is_empty (hashes line) || is_empty r)) [
      | inl same ↦ rw same h
      | inr headed ↦
          let something : is_empty r ≡ false = ground (arith, headed) in
          let last : back (hashes line ++ 32 ∷ r) ≡ back line =
            back-append (hashes line) r 32
            ∙ rw something (
                back-skip_blanks (after_hashes line) something
                ∙ back-after_hashes line (after_something line something)) in
          rw headed (ground (arith, last, is_empty-append (hashes line) r 32, h))
    ]

pub short_runs-heading :
    (n : ℕ) (lines : List Str) → short_runs n (map heading lines) ≡ short_runs n lines
unfolding short_runs
short_runs-heading n [] = refl
short_runs-heading n (line ∷ lines) =
    ground
      (arith, is_empty-heading line, short_runs-heading (n + 1) lines, short_runs-heading 0 lines)
