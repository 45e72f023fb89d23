-- ===== src/Core/Normalization/Trim.antt =====
-- What `trim` takes away.
use career_coordination_mcp.Prelude.{
  ℕ, ◌≡◌, refl, ap, ◌∙◌, inl, inr, Str, ◌&&◌, true, false, [], ◌∷◌, ◌++◌, is_empty, All, arith,
  Bool-cases,
}
use career_coordination_mcp.Core.Normalization.{is_space, trim_front, trim_back, trim}

abbrev pub IsSpace : ℕ → Type 0
IsSpace c = is_space c ≡ true

-- The first byte is no space; the last byte is none.
abbrev pub FrontTrimmed : Str → Type 0
FrontTrimmed [] = Unit
FrontTrimmed (c ∷ s) = is_space c ≡ false

abbrev pub BackTrimmed : Str → Type 0
BackTrimmed [] = Unit
BackTrimmed (c ∷ s) = (is_empty s && is_space c ≡ false) × BackTrimmed s

trim_front-FrontTrimmed : (s : Str) → FrontTrimmed (trim_front s)
unfolding trim_front
trim_front-FrontTrimmed [] = tt
trim_front-FrontTrimmed (c ∷ s) = elim (Bool-cases (is_space c)) [
  | inl p ↦ rw (p, trim_front) (trim_front-FrontTrimmed s)
  | inr p ↦ rw (p, trim_front) p
]

trim_back-BackTrimmed : (s : Str) → BackTrimmed (trim_back s)
unfolding trim_back
trim_back-BackTrimmed [] = tt
trim_back-BackTrimmed (c ∷ s) = elim (Bool-cases (is_empty (trim_back s) && is_space c)) [
  | inl p ↦ rw (p, trim_back) tt
  | inr p ↦ rw (p, trim_back) (p, trim_back-BackTrimmed s)
]

trim_back-FrontTrimmed : (s : Str) → FrontTrimmed s → FrontTrimmed (trim_back s)
unfolding trim_back
trim_back-FrontTrimmed [] h = tt
trim_back-FrontTrimmed (c ∷ s) h = elim (Bool-cases (is_empty (trim_back s) && is_space c)) [
  | inl p ↦ rw (p, trim_back) tt
  | inr p ↦ rw (p, trim_back) h
]

trim_front_of_FrontTrimmed : (s : Str) → FrontTrimmed s → trim_front s ≡ s
unfolding trim_front
trim_front_of_FrontTrimmed [] h = refl
trim_front_of_FrontTrimmed (c ∷ s) h = rw (h, trim_front)

trim_back_of_BackTrimmed : (s : Str) → BackTrimmed s → trim_back s ≡ s
unfolding trim_back
trim_back_of_BackTrimmed [] h = refl
trim_back_of_BackTrimmed (c ∷ s) h = rw (trim_back_of_BackTrimmed s h.1, h.0, trim_back)

-- Trimmed at both ends.
pub record IsTrimmed (s : Str) : Type 0 where
  pub front : FrontTrimmed s
  pub back : BackTrimmed s

pub trim-IsTrimmed : (s : Str) → IsTrimmed (trim s)
unfolding trim
trim-IsTrimmed s = record {
  front = trim_back-FrontTrimmed (trim_front s) (trim_front-FrontTrimmed s);
  back = trim_back-BackTrimmed (trim_front s);
}

pub trim_of_IsTrimmed : (s : Str) → IsTrimmed s → trim s ≡ s
unfolding trim
trim_of_IsTrimmed s h =
    ap trim_back (trim_front_of_FrontTrimmed s h.front) ∙ trim_back_of_BackTrimmed s h.back

empty_of : (s : Str) → is_empty s ≡ true → s ≡ []
empty_of [] h = refl
empty_of (c ∷ s) h = cc

front_split : (s : Str) → (pre : Str) × (s ≡ pre ++ trim_front s) × All IsSpace pre
unfolding trim_front
front_split [] = ([], refl, tt)
front_split (c ∷ s) =
    let (pre, e, a) = front_split s in
    elim (Bool-cases (is_space c)) [
      | inl p ↦ rw (p, trim_front) (c ∷ pre, ap (◌∷◌ c) e, (p, a))
      | inr p ↦ rw (p, trim_front) ([], refl, tt)
    ]

back_split : (s : Str) → (post : Str) × (s ≡ trim_back s ++ post) × All IsSpace post
unfolding trim_back
back_split [] = ([], refl, tt)
back_split (c ∷ s) =
    let (post, e, a) = back_split s in
    elim (Bool-cases (is_empty (trim_back s) && is_space c)) [
      | inl p ↦
          rw (p, trim_back)
            (
              c ∷ post,
              ap (◌∷◌ c) (e ∙ ap (λ t. t ++ post) (empty_of (trim_back s) (ground arith))),
              (ground arith, a),
            )
      | inr p ↦ rw (p, trim_back) (post, ap (◌∷◌ c) e, a)
    ]

-- `trim` takes spaces away at the two ends, all of them and nothing else: the text is the result
-- between two runs of spaces, and the result has no space at either end.
pub trim_lem :
    (s : Str)
    → ((pre : Str) × (post : Str) × (s ≡ pre ++ (trim s ++ post))
        × All IsSpace pre
        × All IsSpace post)
      × IsTrimmed (trim s)
unfolding trim
trim_lem s =
    let (pre, e, a) = front_split s in
    let (post, f, b) = back_split (trim_front s) in
    ((pre, post, e ∙ ap (◌++◌ pre) f, a, b), trim-IsTrimmed s)

pub trim-trim : (s : Str) → trim (trim s) ≡ trim s
trim-trim s = trim_of_IsTrimmed (trim s) (trim-IsTrimmed s)
