-- ===== src/Prelude/Sorting.antt =====
-- `std::sort` by a comparison. Of elements that compare equal the standard leaves the order open; this
-- one keeps it. What is proved of it (a permutation, in order) holds of every sort.
use mathlib.Core.Path.{◌≡◌, refl}
use mathlib.Core.Bool.{Bool, true, false, ◌||◌}
use mathlib.Core.List.{List, [], ◌∷◌, Perm}
use mathlib.Core.List.Perm
use mathlib.Core.Logic.{inl, inr}
use native.Mathlib.Omega.{arith}
use career_coordination_mcp.Prelude.Tests.{if◌then◌else◌, Bool-cases}

-- Some element passes the test.
abbrev pub any {ℓ} : {A : Type ℓ} → (A → Bool) → List A → Bool
any p [] = false
any p (x ∷ xs) = p x || any p xs

module _ {ℓ} {A : Type ℓ} (less : A → A → Bool) where
  unfoldable pub sort_insert : A → List A → List A
  sort_insert x [] = x ∷ []
  sort_insert x (y ∷ ys) = if less y x then y ∷ sort_insert x ys else x ∷ y ∷ ys

  unfoldable pub sort_by : List A → List A
  unfolding sort_insert
  sort_by [] = []
  sort_by (x ∷ xs) = sort_insert x (sort_by xs)

  sort_insert-perm : (x : A) (ys : List A) → Perm (sort_insert x ys) (x ∷ ys)
  unfolding sort_insert
  sort_insert-perm x [] = Perm.refl (x ∷ [])
  sort_insert-perm x (y ∷ ys) = elim (Bool-cases (less y x)) [
    | inr p ↦ rw (p, sort_insert) (Perm.refl (x ∷ y ∷ ys))
    | inl p ↦
        rw (p, sort_insert) (Perm.trans (Perm.cons y (sort_insert-perm x ys)) (Perm.swap x y ys))
  ]

  pub sort_by-perm : (xs : List A) → Perm (sort_by xs) xs
  unfolding sort_by
  sort_by-perm [] = Perm.refl []
  sort_by-perm (x ∷ xs) =
      Perm.trans (sort_insert-perm x (sort_by xs)) (Perm.cons x (sort_by-perm xs))

  -- No element is less than the one before it.
  abbrev pub NotAfter : A → List A → Type 0
  NotAfter x [] = Unit
  NotAfter x (y ∷ ys) = less y x ≡ false

  abbrev pub IsSortedBy : List A → Type 0
  IsSortedBy [] = Unit
  IsSortedBy (x ∷ xs) = NotAfter x xs × IsSortedBy xs

  module _ (asymm : (x y : A) → less x y ≡ true → less y x ≡ false) where
    sort_insert-NotAfter :
        (w x : A) (ys : List A) → less w x ≡ true → NotAfter w ys → NotAfter w (sort_insert x ys)
    unfolding sort_insert
    sort_insert-NotAfter w x [] h n = asymm w x h
    sort_insert-NotAfter w x (y ∷ ys) h n = ground (arith, asymm w x h)

    sort_insert-IsSortedBy : (x : A) (ys : List A) → IsSortedBy ys → IsSortedBy (sort_insert x ys)
    unfolding sort_insert
    sort_insert-IsSortedBy x [] h = (tt, tt)
    sort_insert-IsSortedBy x (y ∷ ys) h = elim (Bool-cases (less y x)) [
      | inr p ↦ rw (p, sort_insert) (p, h)
      | inl p ↦
          rw (p, sort_insert) (sort_insert-NotAfter y x ys p h.0, sort_insert-IsSortedBy x ys h.1)
    ]

    pub sort_by-IsSortedBy : (xs : List A) → IsSortedBy (sort_by xs)
    unfolding sort_by
    sort_by-IsSortedBy [] = tt
    sort_by-IsSortedBy (x ∷ xs) = sort_insert-IsSortedBy x (sort_by xs) (sort_by-IsSortedBy xs)

  any-sort_insert :
      (p : A → Bool) (x : A) (ys : List A) → any p (sort_insert x ys) ≡ (p x || any p ys)
  unfolding sort_insert
  any-sort_insert p x [] = refl
  any-sort_insert p x (y ∷ ys) = ground (arith, any-sort_insert p x ys)

  -- Some element passes a test exactly when one of the sorted list does.
  pub any-sort_by : (p : A → Bool) (xs : List A) → any p (sort_by xs) ≡ any p xs
  unfolding sort_by
  any-sort_by p [] = refl
  any-sort_by p (x ∷ xs) = ground (arith, any-sort_by p xs, any-sort_insert p x (sort_by xs))
