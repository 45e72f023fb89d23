-- ===== src/Prelude/StringSet/Intersection.antt =====
-- `std::set_intersection` of two ascending ranges.
use Prim.Native.Nat.{◌≤◌}
use career_coordination_mcp.Prelude.Tests.{Bool-cases}
use career_coordination_mcp.Prelude.Lists.{length}
use career_coordination_mcp.Prelude.Text.{
  Str, str_eq, str_lt, str_eq_iff, str_lt_irrefl, str_lt_total, str_lt_asymm,
}
use career_coordination_mcp.Prelude.StringSet.{contains, IsAscending}
use career_coordination_mcp.Prelude.StringSet.Canonical.{Above-member}
use mathlib.Core.Path.{◌≡◌, refl, sym, ap, ◌∙◌}
use mathlib.Core.Logic.{inl, inr}
use mathlib.Core.Bool.{Bool, true, false, ◌&&◌, ◌||◌}
use mathlib.Core.List.{List, [], ◌∷◌}
use native.Mathlib.Omega.{arith}

-- Two cursors: the smaller head is skipped, equal heads are copied.
unfoldable pub set_intersection : List Str → List Str → List Str
set_intersection [] b = []
set_intersection (x ∷ a) [] = []
set_intersection (x ∷ a) (y ∷ b) = elim (str_lt x y) [
  | true ↦ set_intersection a (y ∷ b)
  | false ↦ elim (str_lt y x) [
    | true ↦ set_intersection (x ∷ a) b
    | false ↦ x ∷ set_intersection a b
  ]
]

pub length-set_intersection : (a b : List Str) → length (set_intersection a b) ≤ length a
unfolding set_intersection
length-set_intersection [] b = omega arith
length-set_intersection (x ∷ a) [] = omega arith
length-set_intersection (x ∷ a) (y ∷ b) = ground (
  arith,
  length-set_intersection a (y ∷ b),
  length-set_intersection (x ∷ a) b,
  length-set_intersection a b,
)

-- An element below the head of an ascending range is not the member `z`.
member_ne :
    (x y : Str) (b : List Str) (z : Str)
    → IsAscending (y ∷ b)
    → str_lt x y ≡ true
    → contains (y ∷ b) z ≡ true
    → str_eq x z ≡ false
unfolding contains
member_ne x y b z k lt m = ground (
  arith,
  str_eq_iff x z,
  str_eq_iff y z,
  Above-member y b z k.1 k.0,
  str_lt_asymm x y,
  str_lt_irrefl x,
)

and_false : (b : Bool) → false ≡ (b && false)
and_false true = refl
and_false false = refl

drop_left : (p q r : Bool) → (r ≡ true → p ≡ false) → (q && r) ≡ ((p || q) && r)
drop_left false q r h = refl
drop_left true true true h = refl
drop_left true true false h = refl
drop_left true false true h = sym (h refl)
drop_left true false false h = refl

drop_right : (p q r : Bool) → (r ≡ true → p ≡ false) → (r && q) ≡ (r && (p || q))
drop_right false q r h = refl
drop_right true true true h = refl
drop_right true false true h = sym (h refl)
drop_right true q false h = refl

take_both :
    (x : Str) (a : List Str) (y : Str) (b : List Str) (z : Str)
    → str_lt x y ≡ false
    → str_lt y x ≡ false
    → (str_eq x z || (contains a z && contains b z)) ≡ (contains (x ∷ a) z && contains (y ∷ b) z)
unfolding contains
take_both x a y b z p q = ground (arith, str_eq_iff x z, str_eq_iff y z, str_lt_total x y)

-- A text belongs to the intersection exactly when it belongs to both ranges.
pub contains-set_intersection :
    (a b : List Str) (z : Str)
    → IsAscending a
    → IsAscending b
    → contains (set_intersection a b) z ≡ (contains a z && contains b z)
unfolding set_intersection contains
contains-set_intersection [] b z h k = refl
contains-set_intersection (x ∷ a) [] z h k = and_false (contains (x ∷ a) z)
contains-set_intersection (x ∷ a) (y ∷ b) z h k =
    let left = contains-set_intersection a (y ∷ b) z h.1 k in
    let right = contains-set_intersection (x ∷ a) b z h k.1 in
    let both = contains-set_intersection a b z h.1 k.1 in
    elim (Bool-cases (str_lt x y)) [
      | inl p ↦ rw (p, set_intersection) (left ∙ drop_left _ _ _ (member_ne x y b z k p))
      | inr p ↦ elim (Bool-cases (str_lt y x)) [
        | inl q ↦ rw (p, q, set_intersection) (right ∙ drop_right _ _ _ (member_ne y x a z h q))
        | inr q ↦
            rw (p, q, set_intersection) (ap (λ t. str_eq x z || t) both ∙ take_both x a y b z p q)
      ]
    ]
