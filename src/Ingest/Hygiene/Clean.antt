-- ===== src/Ingest/Hygiene/Clean.antt =====
-- What the passes make of lines.
use career_coordination_mcp.Prelude.{
  ℕ, ◌+◌, ◌≡◌, refl, Str, Bool, true, false, not, ◌||◌, ◌&&◌, List, [], ◌∷◌, map, leb, ◌==◌,
  if◌then◌else◌, is_empty, All, arith, Bool-cases, inl, inr,
}
use career_coordination_mcp.Ingest.Hygiene.{trim_end, collapse, back}
use career_coordination_mcp.Ingest.Hygiene.Lines.{lacks, drop_blank}

-- A space, a tab, a line feed, a vertical tab, a form feed or a carriage return.
abbrev pub is_whitespace : ℕ → Bool
is_whitespace c = c == 32 || (leb 9 c && leb c 13)

-- A line that does not end with whitespace.
abbrev pub is_trimmed : Str → Bool
is_trimmed line = is_empty line || not (is_whitespace (back line))

pub is_trimmed-trim_end : (line : Str) → is_trimmed (trim_end line) ≡ true
unfolding trim_end back
is_trimmed-trim_end [] = refl
is_trimmed-trim_end (c ∷ line) = ground (arith, is_trimmed-trim_end line)

pub trim_end_of_trimmed : (line : Str) → is_trimmed line ≡ true → trim_end line ≡ line
unfolding trim_end back
trim_end_of_trimmed [] h = refl
trim_end_of_trimmed (c ∷ []) h = ground (arith, h)
trim_end_of_trimmed (c ∷ d ∷ line) h = rw (trim_end_of_trimmed (d ∷ line) h) refl

pub lacks-trim_end : (b : ℕ) (line : Str) → lacks b line ≡ true → lacks b (trim_end line) ≡ true
unfolding trim_end
lacks-trim_end b [] h = refl
lacks-trim_end b (c ∷ line) h = ground (arith, h, lacks-trim_end b line (ground (arith, h)))

-- No more than two blank lines in succession, after `blank_count` of them.
unfoldable pub short_runs : ℕ → List Str → Bool
short_runs blank_count [] = true
short_runs blank_count (line ∷ lines) =
    let more = short_runs (blank_count + 1) lines in
    let fresh = short_runs 0 lines in
    if is_empty line then leb (blank_count + 1) 2 && more else fresh

abbrev cap : ℕ → ℕ
cap n = if leb n 2 then n else 2

short_runs-collapse-cap : (n : ℕ) (lines : List Str) → short_runs (cap n) (collapse n lines) ≡ true
unfolding short_runs collapse
short_runs-collapse-cap n [] = refl
short_runs-collapse-cap n (line ∷ lines) =
    let next = short_runs-collapse-cap (n + 1) lines in
    elim (Bool-cases (is_empty line)) [
      | inl blank ↦ elim (Bool-cases (leb (n + 1) 2)) [
        | inl kept ↦
            let rest : short_runs (n + 1) (collapse (n + 1) lines) ≡ true =
              rw (cap_of (n + 1) kept) at next in
            rw (blank, kept, cap_of n (ground arith)) (ground (arith, blank, kept, rest))
        | inr dropped ↦
            let rest : short_runs 2 (collapse (n + 1) lines) ≡ true = rw dropped at next in
            rw (blank, dropped, cap_above n dropped) rest
      ]
      | inr text ↦ rw text (ground (arith, text, short_runs-collapse-cap 0 lines))
    ]
  where
    cap_of : (n : ℕ) → leb n 2 ≡ true → cap n ≡ n
    cap_of n h = rw h refl

    cap_above : (n : ℕ) → leb (n + 1) 2 ≡ false → cap n ≡ 2
    cap_above n h = ground arith

pub short_runs-collapse : (lines : List Str) → short_runs 0 (collapse 0 lines) ≡ true
short_runs-collapse lines = short_runs-collapse-cap 0 lines

pub collapse_of_short_runs :
    (n : ℕ) (lines : List Str) → short_runs n lines ≡ true → collapse n lines ≡ lines
unfolding short_runs collapse
collapse_of_short_runs n [] h = refl
collapse_of_short_runs n (line ∷ lines) h =
    let rest : (m : ℕ) → short_runs m lines ≡ true → collapse m lines ≡ lines =
      λ m k. collapse_of_short_runs m lines k in
    ground (arith, h, rest (n + 1), rest 0)

pub short_runs-drop_blank :
    (n : ℕ) (lines : List Str) → short_runs n lines ≡ true → short_runs n (drop_blank lines) ≡ true
unfolding short_runs drop_blank
short_runs-drop_blank n [] h = refl
short_runs-drop_blank n (line ∷ lines) h =
    let rest : (m : ℕ) → short_runs m lines ≡ true → short_runs m (drop_blank lines) ≡ true =
      λ m k. short_runs-drop_blank m lines k in
    ground (arith, h, rest (n + 1), rest 0)

module _ (P : Str → Type 0) where
  pub All-drop_blank : (lines : List Str) → All P lines → All P (drop_blank lines)
  unfolding drop_blank
  All-drop_blank [] h = tt
  All-drop_blank (line ∷ lines) h = elim (Bool-cases (is_empty line && is_empty lines)) [
    | inl last ↦ rw last tt
    | inr more ↦ rw more (h.0, All-drop_blank lines h.1)
  ]

  pub All-collapse : (n : ℕ) (lines : List Str) → All P lines → All P (collapse n lines)
  unfolding collapse
  All-collapse n [] h = tt
  All-collapse n (line ∷ lines) h = elim (Bool-cases (is_empty line)) [
    | inl blank ↦ elim (Bool-cases (leb (n + 1) 2)) [
      | inl kept ↦ rw (blank, kept) (h.0, All-collapse (n + 1) lines h.1)
      | inr dropped ↦ rw (blank, dropped) (All-collapse (n + 1) lines h.1)
    ]
    | inr text ↦ rw text (h.0, All-collapse 0 lines h.1)
  ]

  pub All-map :
      (f : Str → Str) (lines : List Str)
      → ((line : Str) → P line → P (f line))
      → All P lines
      → All P (map f lines)
  All-map f [] k h = tt
  All-map f (line ∷ lines) k h = (k line h.0, All-map f lines k h.1)
