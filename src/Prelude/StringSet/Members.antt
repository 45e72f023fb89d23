-- ===== src/Prelude/StringSet/Members.antt =====
-- A property of all elements, by membership.
use career_coordination_mcp.Prelude.Lists.{All}
use career_coordination_mcp.Prelude.Text.{Str, str_eq, str_eq→eq, str_eq_refl}
use career_coordination_mcp.Prelude.StringSet.{
  contains, sort, unique, contains-sort, contains-unique,
}
use career_coordination_mcp.Prelude.Tests.{Bool-cases}
use mathlib.Core.Path.{◌≡◌, sym, ◌∙◌, subst}
use mathlib.Core.Logic.{inl, inr}
use mathlib.Core.Bool.{true}
use mathlib.Core.List.{List, [], ◌∷◌}
use native.Mathlib.Omega.{arith}

module _ {ℓ} (P : Str → Type ℓ) where
  pub All→member : (xs : List Str) (z : Str) → All P xs → contains xs z ≡ true → P z
  unfolding contains
  All→member [] z a h = cc
  All→member (x ∷ xs) z a h = elim (Bool-cases (str_eq x z)) [
    | inl same ↦ subst P (str_eq→eq x z same) a.0
    | inr other ↦ All→member xs z a.1 (rw other at h)
  ]

  pub member→All : (xs : List Str) → ((z : Str) → contains xs z ≡ true → P z) → All P xs
  unfolding contains
  member→All [] h = tt
  member→All (x ∷ xs) h = (h x (rw str_eq_refl), member→All xs λ z m. h z (ground arith))

  pub All-unique-sort : (xs : List Str) → All P xs → All P (unique (sort xs))
  All-unique-sort xs a =
      member→All (unique (sort xs))
        λ z m. All→member xs z a (sym (contains-unique (sort xs) z ∙ contains-sort xs z) ∙ m)
