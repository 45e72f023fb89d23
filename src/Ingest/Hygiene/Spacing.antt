-- ===== src/Ingest/Hygiene/Spacing.antt =====
-- The spacing of headings, described apart from the pass that makes it.
use career_coordination_mcp.Prelude.{
  ℕ, ◌≡◌, refl, ◌∙◌, Str, Bool, true, false, not, ◌||◌, ◌&&◌, [], ◌∷◌, ◌++◌, ◌==◌, if◌then◌else◌,
  is_empty, arith, Bool-cases, inl, inr,
}
use career_coordination_mcp.Ingest.Hygiene.{skip_blanks, hashes, after_hashes, heading}

abbrev is_blank : ℕ → Bool
is_blank c = c == 32 || c == 9

abbrev only_blanks : Str → Bool
only_blanks [] = true
only_blanks (c ∷ s) = is_blank c && only_blanks s

abbrev starts_with_text : Str → Bool
starts_with_text [] = false
starts_with_text (c ∷ s) = not (is_blank c)

-- Behind the hashes of a heading there is no text, or one space and then the text.
abbrev spaced_rest : Str → Bool
spaced_rest [] = true
spaced_rest (c ∷ s) = only_blanks (c ∷ s) || (c == 32 && starts_with_text s)

abbrev spaced_heading : Str → Bool
spaced_heading [] = true
spaced_heading (c ∷ s) = if c == b'#' then spaced_heading s else spaced_rest (c ∷ s)

-- A line that starts with a hash is spaced as a heading.
abbrev pub well_spaced : Str → Bool
well_spaced [] = true
well_spaced (c ∷ s) = if c == b'#' then spaced_heading s else true

only_blanks-skip_blanks : (s : Str) → only_blanks s ≡ is_empty (skip_blanks s)
unfolding skip_blanks
only_blanks-skip_blanks [] = refl
only_blanks-skip_blanks (c ∷ s) = ground (arith, only_blanks-skip_blanks s)

starts-skip_blanks :
    (s : Str) → is_empty (skip_blanks s) ≡ false → starts_with_text (skip_blanks s) ≡ true
unfolding skip_blanks
starts-skip_blanks [] h = cc h
starts-skip_blanks (c ∷ s) h = ground (arith, h, starts-skip_blanks s)

skip_blanks-text : (s : Str) → starts_with_text s ≡ true → skip_blanks s ≡ s
unfolding skip_blanks
skip_blanks-text [] h = refl
skip_blanks-text (c ∷ s) h = ground (arith, h)

spaced_heading-after_hashes : (s : Str) → spaced_heading s ≡ spaced_rest (after_hashes s)
unfolding after_hashes
spaced_heading-after_hashes [] = refl
spaced_heading-after_hashes (c ∷ s) = ground (arith, spaced_heading-after_hashes s)

spaced_heading-append :
    (s t : Str) → starts_with_text t ≡ true → spaced_heading (hashes s ++ 32 ∷ t) ≡ true
unfolding hashes
spaced_heading-append [] t h = ground (arith, h)
spaced_heading-append (c ∷ s) t h = ground (arith, h, spaced_heading-append s t h)

spaced_rest-blank : (s : Str) → is_empty (skip_blanks s) ≡ true → spaced_rest s ≡ true
spaced_rest-blank [] h = refl
spaced_rest-blank (c ∷ s) h = ground (arith, h, only_blanks-skip_blanks (c ∷ s))

hashes-append_after : (s : Str) → hashes s ++ after_hashes s ≡ s
unfolding hashes after_hashes
hashes-append_after [] = refl
hashes-append_after (c ∷ s) = ground (arith, hashes-append_after s)

-- Every line of the pass is well spaced.
pub well_spaced-heading : (line : Str) → well_spaced (heading line) ≡ true
unfolding heading hashes after_hashes
well_spaced-heading [] = refl
well_spaced-heading (c ∷ s) = elim (Bool-cases (c == b'#')) [
  | inr other ↦ rw (other) (rw other refl)
  | inl hash ↦ elim (Bool-cases (is_empty (skip_blanks (after_hashes s)))) [
    | inl blank ↦
        rw (hash, blank)
          (rw hash (spaced_heading-after_hashes s ∙ spaced_rest-blank (after_hashes s) blank))
    | inr text ↦
        rw (hash, text)
          (rw hash (
            spaced_heading-append s (skip_blanks (after_hashes s))
              (starts-skip_blanks (after_hashes s) text)))
  ]
]

same_rest :
    (s : Str) → spaced_rest s ≡ true → is_empty (skip_blanks s) ≡ false → 32 ∷ skip_blanks s ≡ s
unfolding skip_blanks
same_rest [] h n = cc n
same_rest (c ∷ s) h n = ground (arith, h, n, only_blanks-skip_blanks (c ∷ s), skip_blanks-text s)

-- The pass keeps a line that is well spaced.
pub heading_of_well_spaced : (line : Str) → well_spaced line ≡ true → heading line ≡ line
unfolding heading hashes after_hashes
heading_of_well_spaced [] h = refl
heading_of_well_spaced (c ∷ s) h = elim (Bool-cases (c == b'#')) [
  | inr other ↦ rw other refl
  | inl hash ↦ elim (Bool-cases (is_empty (skip_blanks (after_hashes s)))) [
    | inl blank ↦ rw (hash, blank) refl
    | inr text ↦
        let spaced : spaced_rest (after_hashes s) ≡ true =
          ground (arith, h, hash, spaced_heading-after_hashes s) in
        rw (hash, text, same_rest (after_hashes s) spaced text, hashes-append_after s) refl
  ]
]
