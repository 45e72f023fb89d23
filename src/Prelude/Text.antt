-- ===== src/Prelude/Text.antt =====
-- `std::string`: a list of bytes, its equality and its lexicographic order by unsigned bytes.
use Prim.Native.Nat.{ℕ, zero, suc, ◌+◌, ◌/◌, ◌%◌}
use Prim.Native.Char.{code}
use Prim.Native.String.{String}
use mathlib.Core.Path.{◌≡◌, refl}
use mathlib.Core.Logic.{◌↔◌}
use mathlib.Core.Bool.{Bool, true, false, ◌&&◌}
use mathlib.Core.List.{List, [], ◌∷◌, ◌++◌}
use native.Mathlib.Omega.{arith}
use career_coordination_mcp.Prelude.Tests.{ltb, ◌==◌, if◌then◌else◌}

-- the bytes of a text
abbrev pub Str : Type 0
Str = List ℕ

-- The bytes of an ASCII literal.
abbrev pub lit : String → Str
lit String.[] = []
lit (String.◌∷◌ c s) = code c ∷ lit s

unfoldable pub str_eq : Str → Str → Bool
str_eq [] [] = true
str_eq (x ∷ xs) (y ∷ ys) = x == y && str_eq xs ys
str_eq _ _ = false

unfoldable pub str_lt : Str → Str → Bool
str_lt [] [] = false
str_lt [] (y ∷ ys) = true
str_lt (x ∷ xs) [] = false
str_lt (x ∷ xs) (y ∷ ys) = if x == y then str_lt xs ys else ltb x y

pub str_eq→eq : (s t : Str) → str_eq s t ≡ true → s ≡ t
unfolding str_eq
str_eq→eq [] [] h = refl
str_eq→eq (x ∷ xs) (y ∷ ys) h = ground (arith, str_eq→eq xs ys)
str_eq→eq [] (y ∷ ys) h = cc
str_eq→eq (x ∷ xs) [] h = cc

pub str_eq_refl : (s : Str) → str_eq s s ≡ true
unfolding str_eq
str_eq_refl [] = refl
str_eq_refl (x ∷ xs) = ground (arith, str_eq_refl xs)

pub str_eq_iff : (s t : Str) → (str_eq s t ≡ true) ↔ (s ≡ t)
str_eq_iff s t = (str_eq→eq s t, λ e. ground (arith, str_eq_refl s))

pub str_lt_irrefl : (s : Str) → str_lt s s ≡ false
unfolding str_lt
str_lt_irrefl [] = refl
str_lt_irrefl (x ∷ xs) = ground (arith, str_lt_irrefl xs)

pub str_lt_trans : (s t u : Str) → str_lt s t ≡ true → str_lt t u ≡ true → str_lt s u ≡ true
unfolding str_lt
str_lt_trans [] [] u h k = cc
str_lt_trans [] (y ∷ t) [] h k = cc
str_lt_trans [] (y ∷ t) (z ∷ u) h k = refl
str_lt_trans (x ∷ s) [] u h k = cc
str_lt_trans (x ∷ s) (y ∷ t) [] h k = cc
str_lt_trans (x ∷ s) (y ∷ t) (z ∷ u) h k = ground (arith, str_lt_trans s t u)

-- Of two texts one is the smaller, unless they are equal.
pub str_lt_total : (s t : Str) → str_lt s t ≡ false → str_lt t s ≡ false → s ≡ t
unfolding str_lt
str_lt_total [] [] h k = refl
str_lt_total [] (y ∷ t) h k = cc
str_lt_total (x ∷ s) [] h k = cc
str_lt_total (x ∷ s) (y ∷ t) h k = ground (arith, str_lt_total s t)

pub str_lt_asymm : (s t : Str) → str_lt s t ≡ true → str_lt t s ≡ false
unfolding str_lt
str_lt_asymm [] [] h = refl
str_lt_asymm [] (y ∷ t) h = refl
str_lt_asymm (x ∷ s) [] h = cc
str_lt_asymm (x ∷ s) (y ∷ t) h = ground (arith, str_lt_asymm s t)

-- `a == b` of two `std::vector<std::string>`
unfoldable pub strs_eq : List Str → List Str → Bool
strs_eq [] [] = true
strs_eq (x ∷ xs) (y ∷ ys) = str_eq x y && strs_eq xs ys
strs_eq _ _ = false

pub strs_eq_iff : (a b : List Str) → (strs_eq a b ≡ true) ↔ (a ≡ b)
unfolding strs_eq
strs_eq_iff [] [] = ((λ _. refl), λ _. refl)
strs_eq_iff [] (y ∷ ys) = ((λ h. cc), λ h. cc)
strs_eq_iff (x ∷ xs) [] = ((λ h. cc), λ h. cc)
strs_eq_iff (x ∷ xs) (y ∷ ys) = (
  (λ h. ground (arith, str_eq_iff x y, strs_eq_iff xs ys)),
  λ h. ground (arith, str_eq_iff x y, strs_eq_iff xs ys),
)

-- `std::to_string`, with fuel for the digits: a number has at most as many as it has units, and one
unfoldable pub decimal : ℕ → ℕ → Str
decimal zero n = []
decimal (suc fuel) n = elim (ltb n 10) [
  | true ↦ (b'0' + n) ∷ []
  | false ↦ decimal fuel (n / 10) ++ (b'0' + n % 10) ∷ []
]

unfoldable pub to_string : ℕ → Str
unfolding decimal
to_string n = decimal (suc n) n
