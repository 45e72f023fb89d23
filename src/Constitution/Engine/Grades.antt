-- ===== src/Constitution/Engine/Grades.antt =====
-- Which severities occur among findings that are put together.
use career_coordination_mcp.Prelude.{
  ◌≡◌, refl, ◌∙◌, ap₂, Bool, true, false, not, List, [], ◌∷◌, ◌++◌, ◌||◌, ◌&&◌, arith,
}
use career_coordination_mcp.Prelude.Sorting.{any}
use career_coordination_mcp.Constitution.Artifact.{warn, fail, block, Finding}
use career_coordination_mcp.Constitution.Engine.{severity_is}

pub any-append :
    {A : Type 0} (p : A → Bool) (xs ys : List A) → any p (xs ++ ys) ≡ (any p xs || any p ys)
any-append p [] ys = refl
any-append p (x ∷ xs) ys = ground (arith, any-append p xs ys)

abbrev pub all : {A : Type 0} → (A → Bool) → List A → Bool
all p [] = true
all p (x ∷ xs) = p x && all p xs

pub not_and : (a b : Bool) → (not a || not b) ≡ not (a && b)
not_and true b = refl
not_and false b = refl

pub or_false : (b : Bool) → (b || false) ≡ b
or_false true = refl
or_false false = refl

-- What the findings of one severity are, for the three severities of the default rules.
abbrev pub Grades : List Finding → Bool → Bool → Bool → Type 0
Grades findings b f w =
    (any (severity_is block) findings ≡ b)
    × (any (severity_is fail) findings ≡ f)
    × (any (severity_is warn) findings ≡ w)

pub Grades-append :
    (xs ys : List Finding) (b f w b' f' w' : Bool)
    → Grades xs b f w
    → Grades ys b' f' w'
    → Grades (xs ++ ys) (b || b') (f || f') (w || w')
Grades-append xs ys b f w b' f' w' g h = (
  any-append (severity_is block) xs ys ∙ ap₂ ◌||◌ g.0 h.0,
  any-append (severity_is fail) xs ys ∙ ap₂ ◌||◌ g.1 h.1,
  any-append (severity_is warn) xs ys ∙ ap₂ ◌||◌ g.2 h.2,
)
