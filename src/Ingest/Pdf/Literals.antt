-- ===== src/Ingest/Pdf/Literals.antt =====
-- A text that is written as a literal is read back.
use career_coordination_mcp.Prelude.{
  ℕ, zero, suc, ◌<◌, ◌≡◌, refl, ap, ◌∙◌, Str, Bool, true, false, some, List, [], ◌∷◌, ◌++◌, ◌==◌,
  length, length-append, arith, Bool-cases, inl, inr, ◌&&◌, ◌||◌, if◌then◌else◌, append_assoc, All,
  not,
}
use career_coordination_mcp.Ingest.Pdf.{after_paren, keep, matching, literals, escape_of, unescape}

abbrev pub needs_escape : ℕ → Bool
needs_escape c = c == b'\\' || (c == b'(' || c == b')')

-- A text as it stands in a literal.
abbrev pub escape : Str → Str
escape [] = []
escape (c ∷ s) = if needs_escape c then b'\\' ∷ c ∷ escape s else c ∷ escape s

escape_of_special : (c : ℕ) → needs_escape c ≡ true → escape_of c ≡ some c
unfolding escape_of
escape_of_special c h = ground (arith, h)

unescape-plain : (c : ℕ) (s : Str) → (c == b'\\') ≡ false → unescape (c ∷ s) ≡ c ∷ unescape s
unfolding unescape
unescape-plain c [] h = refl
unescape-plain c (d ∷ s) h = rw h refl

unescape-escape : (s : Str) → unescape (escape s) ≡ s
unfolding unescape
unescape-escape [] = refl
unescape-escape (c ∷ s) = elim (Bool-cases (needs_escape c)) [
  | inl special ↦ rw (special, escape_of_special c special, unescape-escape s) refl
  | inr plain ↦
      rw plain
        (unescape-plain c (escape s) (ground (arith, plain)) ∙ ap (λ t. c ∷ t) (unescape-escape s))
]

matching-plain :
    (c : ℕ) (s : Str) → needs_escape c ≡ false → matching 1 (c ∷ s) ≡ keep (c ∷ []) (matching 1 s)
unfolding matching
matching-plain c [] h = ground (arith, h)
matching-plain c (d ∷ s) h =
    let p : (c == b'\\') ≡ false = ground (arith, h) in
    let q : (c == b'(') ≡ false = ground (arith, h) in
    let r : (c == b')') ≡ false = ground (arith, h) in rw (p, q, r) refl

matching-escape : (s rest : Str) → matching 1 (escape s ++ b')' ∷ rest) ≡ some (escape s, rest)
unfolding matching
matching-escape [] [] = refl
matching-escape [] (r ∷ rest) = refl
matching-escape (c ∷ s) rest = elim (Bool-cases (needs_escape c)) [
  | inl special ↦ rw (special, matching-escape s rest) refl
  | inr plain ↦ rw plain (
      matching-plain c (escape s ++ b')' ∷ rest) plain
      ∙ ap (keep (c ∷ [])) (matching-escape s rest))
]

abbrev pub lacks_paren : Str → Bool
lacks_paren [] = true
lacks_paren (c ∷ s) = not (c == b'(') && lacks_paren s

after_paren-append : (gap s : Str) → lacks_paren gap ≡ true → after_paren (gap ++ b'(' ∷ s) ≡ some s
unfolding after_paren
after_paren-append [] s h = refl
after_paren-append (c ∷ gap) s h = ground (arith, h, after_paren-append gap s (ground (arith, h)))

-- A stream that shows texts, each behind bytes that open no literal.
abbrev pub written : List (Str × Str) → Str
written [] = []
written ((gap, text) ∷ items) = gap ++ b'(' ∷ (escape text ++ b')' ∷ written items)

abbrev pub shown : List (Str × Str) → Str
shown [] = []
shown ((gap, text) ∷ items) = text ++ 32 ∷ shown items

abbrev pub AreGaps : List (Str × Str) → Type 0
AreGaps items = All (λ (gap, text). lacks_paren gap ≡ true) items

-- The texts of a stream of literals are read as they are, with a blank behind each, whatever bytes they
-- have; what stands before a literal must open none.
pub literals-written :
    (fuel : ℕ) (items : List (Str × Str))
    → AreGaps items
    → length (written items) < fuel
    → literals fuel (written items) ≡ some (shown items)
unfolding literals
literals-written zero items gaps h = absurd (omega (arith, h))
literals-written (suc fuel) [] gaps h = refl
literals-written (suc fuel) ((gap, text) ∷ items) gaps h =
    let rest = literals-written fuel items gaps.1 (
      omega (
        arith,
        h,
        length-append gap (b'(' ∷ (escape text ++ b')' ∷ written items)),
        length-append (escape text) (b')' ∷ written items),
      )) in
    rw
      (
        literals,
        after_paren-append gap (escape text ++ b')' ∷ written items) gaps.0,
        matching-escape text (written items),
        unescape-escape text,
        rest,
      )
      (ap some (append_assoc text (32 ∷ []) (shown items)))
