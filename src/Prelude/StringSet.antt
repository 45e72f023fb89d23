-- ===== src/Prelude/StringSet.antt =====
-- `std::set<std::string>` and sorted, deduplicated `std::vector<std::string>`: lists in strictly
-- ascending order. `std::sort`, `std::unique` and `std::set_intersection` over texts.
pub mod Canonical
pub mod Intersection
pub mod Members
use career_coordination_mcp.Prelude.Tests.{if◌then◌else◌}
use career_coordination_mcp.Prelude.Text.{
  Str, str_eq, str_lt, str_eq_iff, str_lt_total, str_lt_asymm,
}
use mathlib.Core.Path.{◌≡◌, refl}
use mathlib.Core.Bool.{Bool, true, false, ◌||◌}
use mathlib.Core.List.{List, [], ◌∷◌, ◌++◌}
use native.Mathlib.Omega.{arith}

-- `std::find(xs, x) != end`
unfoldable pub contains : List Str → Str → Bool
contains [] x = false
contains (y ∷ ys) x = str_eq y x || contains ys x

-- `s.insert(x)`
unfoldable pub insert : List Str → Str → List Str
insert [] x = x ∷ []
insert (y ∷ ys) x =
    if str_eq y x then y ∷ ys else if str_lt x y then x ∷ y ∷ ys else y ∷ insert ys x

-- `s.insert(xs.begin(), xs.end())`
unfoldable pub insert_all : List Str → List Str → List Str
unfolding insert
insert_all s [] = s
insert_all s (x ∷ xs) = insert_all (insert s x) xs

-- One step of a sort: equal texts are indistinguishable, so any `std::sort` gives this list.
sort_insert : Str → List Str → List Str
sort_insert x [] = x ∷ []
sort_insert x (y ∷ ys) = if str_lt y x then y ∷ sort_insert x ys else x ∷ y ∷ ys

-- `std::sort(xs.begin(), xs.end())`
unfoldable pub sort : List Str → List Str
unfolding sort_insert
sort [] = []
sort (x ∷ xs) = sort_insert x (sort xs)

-- Drop the leading copies of the text kept last.
unique_after : Str → List Str → List Str
unique_after x [] = []
unique_after x (y ∷ ys) =
    let kept = y ∷ unique_after y ys in
    let dropped = unique_after x ys in if str_eq x y then dropped else kept

-- `xs.erase(std::unique(xs.begin(), xs.end()), xs.end())`
unfoldable pub unique : List Str → List Str
unfolding unique_after
unique [] = []
unique (x ∷ xs) = x ∷ unique_after x xs

pub contains-append :
    (xs ys : List Str) (x : Str) → contains (xs ++ ys) x ≡ (contains xs x || contains ys x)
unfolding contains
contains-append [] ys x = refl
contains-append (y ∷ xs) ys x = ground (arith, contains-append xs ys x)

pub contains-insert :
    (s : List Str) (x z : Str) → contains (insert s x) z ≡ (str_eq x z || contains s z)
unfolding contains insert
contains-insert [] x z = refl
contains-insert (y ∷ ys) x z =
    ground (arith, str_eq_iff y x, str_eq_iff y z, str_eq_iff x z, contains-insert ys x z)

pub contains-insert_all :
    (s xs : List Str) (z : Str) → contains (insert_all s xs) z ≡ (contains s z || contains xs z)
unfolding contains insert_all
contains-insert_all s [] z = ground arith
contains-insert_all s (x ∷ xs) z =
    ground (arith, contains-insert_all (insert s x) xs z, contains-insert s x z)

contains-sort_insert :
    (x : Str) (ys : List Str) (z : Str)
    → contains (sort_insert x ys) z ≡ (str_eq x z || contains ys z)
unfolding contains sort_insert
contains-sort_insert x [] z = refl
contains-sort_insert x (y ∷ ys) z = ground (arith, contains-sort_insert x ys z)

pub contains-sort : (xs : List Str) (z : Str) → contains (sort xs) z ≡ contains xs z
unfolding contains sort
contains-sort [] z = refl
contains-sort (x ∷ xs) z = ground (arith, contains-sort xs z, contains-sort_insert x (sort xs) z)

contains-unique_after :
    (x : Str) (ys : List Str) (z : Str)
    → (str_eq x z || contains (unique_after x ys) z) ≡ (str_eq x z || contains ys z)
unfolding contains unique_after
contains-unique_after x [] z = refl
contains-unique_after x (y ∷ ys) z =
    ground (arith, str_eq_iff x y, contains-unique_after x ys z, contains-unique_after y ys z)

pub contains-unique : (xs : List Str) (z : Str) → contains (unique xs) z ≡ contains xs z
unfolding contains unique
contains-unique [] z = refl
contains-unique (x ∷ xs) z = contains-unique_after x xs z

-- The head, if there is one, lies above `x`.
abbrev pub Above : Str → List Str → Type 0
Above x [] = Unit
Above x (y ∷ ys) = str_lt x y ≡ true

-- Strictly ascending.
abbrev pub IsAscending : List Str → Type 0
IsAscending [] = Unit
IsAscending (x ∷ xs) = Above x xs × IsAscending xs

-- Ascending, copies allowed.
abbrev NotBelow : Str → List Str → Type 0
NotBelow x [] = Unit
NotBelow x (y ∷ ys) = str_lt y x ≡ false

abbrev IsSorted : List Str → Type 0
IsSorted [] = Unit
IsSorted (x ∷ xs) = NotBelow x xs × IsSorted xs

insert-Above : (w x : Str) (s : List Str) → str_lt w x ≡ true → Above w s → Above w (insert s x)
unfolding insert
insert-Above w x [] h a = h
insert-Above w x (y ∷ ys) h a = ground arith

pub insert-IsAscending : (s : List Str) (x : Str) → IsAscending s → IsAscending (insert s x)
unfolding insert
insert-IsAscending [] x h = (tt, tt)
insert-IsAscending (y ∷ ys) x h =
    ground (arith, str_eq_iff y x, insert-IsAscending ys x, insert-Above y x ys, str_lt_total x y)

pub insert_all-IsAscending : (s xs : List Str) → IsAscending s → IsAscending (insert_all s xs)
unfolding insert_all
insert_all-IsAscending s [] h = h
insert_all-IsAscending s (x ∷ xs) h =
    insert_all-IsAscending (insert s x) xs (insert-IsAscending s x h)

sort_insert-NotBelow :
    (w x : Str) (s : List Str) → str_lt x w ≡ false → NotBelow w s → NotBelow w (sort_insert x s)
unfolding sort_insert
sort_insert-NotBelow w x [] h a = h
sort_insert-NotBelow w x (y ∷ ys) h a = ground arith

sort_insert-IsSorted : (x : Str) (s : List Str) → IsSorted s → IsSorted (sort_insert x s)
unfolding sort_insert
sort_insert-IsSorted x [] h = (tt, tt)
sort_insert-IsSorted x (y ∷ ys) h =
    ground (arith, sort_insert-IsSorted x ys, sort_insert-NotBelow y x ys, str_lt_asymm y x)

sort-IsSorted : (xs : List Str) → IsSorted (sort xs)
unfolding sort
sort-IsSorted [] = tt
sort-IsSorted (x ∷ xs) = sort_insert-IsSorted x (sort xs) (sort-IsSorted xs)

NotBelow-trans : (x y : Str) (ys : List Str) → str_eq x y ≡ true → NotBelow y ys → NotBelow x ys
NotBelow-trans x y [] e h = tt
NotBelow-trans x y (z ∷ ys) e h = ground (arith, str_eq_iff x y)

unique_after-Above :
    (x : Str) (ys : List Str) → NotBelow x ys → IsSorted ys → Above x (unique_after x ys)
unfolding unique_after
unique_after-Above x [] n h = tt
unique_after-Above x (y ∷ ys) n h =
    ground (arith, str_eq_iff x y, unique_after-Above x ys, NotBelow-trans x y ys, str_lt_total x y)

unique_after-IsAscending : (x : Str) (ys : List Str) → IsSorted ys → IsAscending (unique_after x ys)
unfolding unique_after
unique_after-IsAscending x [] h = tt
unique_after-IsAscending x (y ∷ ys) h =
    ground
      (arith, unique_after-IsAscending x ys, unique_after-IsAscending y ys, unique_after-Above y ys)

unique-IsAscending : (ys : List Str) → IsSorted ys → IsAscending (unique ys)
unfolding unique
unique-IsAscending [] h = tt
unique-IsAscending (y ∷ ys) h = (unique_after-Above y ys h.0 h.1, unique_after-IsAscending y ys h.1)

pub unique-sort-IsAscending : (xs : List Str) → IsAscending (unique (sort xs))
unique-sort-IsAscending xs = unique-IsAscending (sort xs) (sort-IsSorted xs)
