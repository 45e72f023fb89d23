-- ===== src/Prelude/StringSet/Canonical.antt =====
-- A strictly ascending list is determined by its members.
use career_coordination_mcp.Prelude.Text.{
  Str, str_lt, str_eq_iff, str_eq_refl, str_lt_irrefl, str_lt_trans, str_lt_asymm,
}
use career_coordination_mcp.Prelude.StringSet.{
  contains, insert_all, sort, unique, Above, IsAscending, contains-insert_all, contains-sort,
  contains-unique, insert_all-IsAscending, unique-sort-IsAscending,
}
use mathlib.Core.Path.{◌≡◌, refl, sym, ◌∙◌, ap₂}
use mathlib.Core.Bool.{true, false}
use mathlib.Core.List.{List, [], ◌∷◌}
use native.Mathlib.Omega.{arith}

-- What lies below the head lies below every member.
pub Above-member :
    (x : Str) (ys : List Str) (z : Str)
    → IsAscending ys
    → Above x ys
    → contains ys z ≡ true
    → str_lt x z ≡ true
unfolding contains
Above-member x [] z a h m = cc
Above-member x (y ∷ ys) z a h m =
    ground (arith, str_eq_iff y z, Above-member y ys z, str_lt_trans x y z)

abbrev pub SameMembers : List Str → List Str → Type 0
SameMembers xs ys = (z : Str) → contains xs z ≡ contains ys z

-- `x` is no member of an ascending list that starts above it.
not_member : (x : Str) (ys : List Str) → IsAscending ys → Above x ys → contains ys x ≡ false
not_member x ys a h = ground (arith, Above-member x ys x a h, str_lt_irrefl x)

heads_equal :
    (x : Str) (xs : List Str) (y : Str) (ys : List Str)
    → IsAscending (x ∷ xs)
    → IsAscending (y ∷ ys)
    → contains (y ∷ ys) x ≡ true
    → contains (x ∷ xs) y ≡ true
    → x ≡ y
unfolding contains
heads_equal x xs y ys a b h k = ground (
  arith,
  str_eq_iff x y,
  str_eq_iff y x,
  Above-member x xs y a.1 a.0,
  Above-member y ys x b.1 b.0,
  str_lt_asymm x y,
)

tails_agree :
    (x y : Str) (xs ys : List Str)
    → IsAscending (x ∷ xs)
    → IsAscending (y ∷ ys)
    → x ≡ y
    → SameMembers (x ∷ xs) (y ∷ ys)
    → SameMembers xs ys
unfolding contains
tails_agree x y xs ys a b e h z =
    ground
      (arith, h z, str_eq_iff x z, str_eq_iff y z, not_member x xs a.1 a.0, not_member y ys b.1 b.0)

pub IsAscending-unique :
    (xs ys : List Str) → IsAscending xs → IsAscending ys → SameMembers xs ys → xs ≡ ys
unfolding contains
IsAscending-unique [] [] a b h = refl
IsAscending-unique [] (y ∷ ys) a b h = ground (arith, h y, str_eq_refl y)
IsAscending-unique (x ∷ xs) [] a b h = ground (arith, h x, str_eq_refl x)
IsAscending-unique (x ∷ xs) (y ∷ ys) a b h =
    let same : x ≡ y =
      heads_equal x xs y ys a b (ground (arith, h x, str_eq_refl x))
        (ground (arith, h y, str_eq_refl y)) in
    ap₂ ◌∷◌ same (IsAscending-unique xs ys a.1 b.1 (tails_agree x y xs ys a b same h))

-- A set built by insertion is the sorted vector without its copies.
pub insert_all-eq-unique-sort : (xs : List Str) → insert_all [] xs ≡ unique (sort xs)
unfolding contains
insert_all-eq-unique-sort xs =
    IsAscending-unique _ _ (insert_all-IsAscending [] xs tt) (unique-sort-IsAscending xs)
      λ z. contains-insert_all [] xs z ∙ sym (contains-unique (sort xs) z ∙ contains-sort xs z)

-- Sorting and deduplicating an ascending list changes nothing.
pub unique-sort_of_IsAscending : (xs : List Str) → IsAscending xs → unique (sort xs) ≡ xs
unique-sort_of_IsAscending xs a =
    IsAscending-unique _ _ (unique-sort-IsAscending xs) a
      λ z. contains-unique (sort xs) z ∙ contains-sort xs z
