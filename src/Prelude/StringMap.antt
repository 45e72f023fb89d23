-- ===== src/Prelude/StringMap.antt =====
-- `std::map<std::string, V>`: an association list in the order of its keys, which is the order of
-- its iteration.
use career_coordination_mcp.Prelude.Tests.{if◌then◌else◌, is_none}
use career_coordination_mcp.Prelude.Text.{
  Str, str_eq, str_lt, str_eq_iff, str_lt_total, str_lt_asymm,
}
use mathlib.Core.Path.{◌≡◌, refl}
use mathlib.Core.Bool.{true, false}
use mathlib.Core.Option.{Option, none, some}
use mathlib.Core.List.{List, [], ◌∷◌}
use native.Mathlib.Omega.{arith}

abbrev pub StringMap {ℓ} : Type ℓ → Type ℓ
StringMap V = List (Str × V)

module _ {ℓ} {V : Type ℓ} where
  -- `m.find(k)`
  unfoldable pub find : StringMap V → Str → Option V
  find [] k = none
  find ((j, v) ∷ m) k = if str_eq j k then some v else find m k

  -- `m[k] = v`
  unfoldable pub assign : StringMap V → Str → V → StringMap V
  assign [] k v = (k, v) ∷ []
  assign ((j, w) ∷ m) k v =
      if str_eq j k
      then (k, v) ∷ m
      else if str_lt k j
      then (k, v) ∷ (j, w) ∷ m
      else (j, w) ∷ assign m k v

  pub find-assign :
      (m : StringMap V) (k j : Str) (v : V)
      → find (assign m k v) j ≡ (if str_eq k j then some v else find m j)
  unfolding find assign
  find-assign [] k j v = refl
  find-assign ((i, w) ∷ m) k j v =
      ground (arith, str_eq_iff k j, str_eq_iff i k, str_eq_iff i j, find-assign m k j v)

  -- A write makes no key disappear.
  pub is_none-find-assign :
      (m : StringMap V) (k j : Str) (v : V)
      → is_none (find m j) ≡ false
      → is_none (find (assign m k v) j) ≡ false
  is_none-find-assign m k j v h = rw find-assign (ground arith)

  -- A write at a free key changes no other.
  pub find-assign_free :
      (m : StringMap V) (k j : Str) (v w : V)
      → find m k ≡ none
      → find m j ≡ some w
      → find (assign m k v) j ≡ some w
  find-assign_free m k j v w h g = rw find-assign (ground (arith, str_eq_iff k j))

  -- A bound from below for the keys, then the order of the keys.
  abbrev pub Above : Str → StringMap V → Type 0
  Above k [] = Unit
  Above k ((j, v) ∷ m) = str_lt k j ≡ true

  abbrev pub IsOrdered : StringMap V → Type 0
  IsOrdered [] = Unit
  IsOrdered ((j, v) ∷ m) = Above j m × IsOrdered m

  assign-Above :
      (i k : Str) (m : StringMap V) (v : V) → str_lt i k ≡ true → Above i m → Above i (assign m k v)
  unfolding assign
  assign-Above i k [] v h a = h
  assign-Above i k ((j, w) ∷ m) v h a = ground (arith, str_eq_iff j k)

  pub assign-IsOrdered :
      (m : StringMap V) (k : Str) (v : V) → IsOrdered m → IsOrdered (assign m k v)
  unfolding assign
  assign-IsOrdered [] k v h = (tt, tt)
  assign-IsOrdered ((j, w) ∷ m) k v h = ground (
    arith,
    str_eq_iff j k,
    assign-IsOrdered m k v,
    assign-Above j k m v,
    str_lt_total k j,
    str_lt_asymm k j,
  )
