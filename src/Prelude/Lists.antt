-- ===== src/Prelude/Lists.antt =====
-- Lists: lengths by native numbers, a predicate for all elements, insertion sort.
use Prim.Native.Nat.{ℕ, zero, suc, ◌+◌}
use mathlib.Core.Path.{◌≡◌, refl, ap}
use mathlib.Core.Bool.{Bool, true, false}
use mathlib.Core.List.{List, [], ◌∷◌, ◌++◌}
use native.Mathlib.Omega.{arith}

module _ {ℓ} {A : Type ℓ} where
  abbrev pub length : List A → ℕ
  length [] = 0
  length (x ∷ xs) = suc (length xs)

  abbrev pub is_empty : List A → Bool
  is_empty [] = true
  is_empty (x ∷ xs) = false

  pub length-append : (xs ys : List A) → length (xs ++ ys) ≡ length xs + length ys
  length-append [] ys = omega arith
  length-append (x ∷ xs) ys = omega (arith, length-append xs ys)

  -- `P` holds of every element
  abbrev pub All {κ} : (A → Type κ) → List A → Type κ
  All P [] = Unit
  All P (x ∷ xs) = P x × All P xs

  pub All-append {κ} : (P : A → Type κ) (xs ys : List A) → All P xs → All P ys → All P (xs ++ ys)
  All-append P [] ys h k = k
  All-append P (x ∷ xs) ys h k = (h.0, All-append P xs ys h.1 k)

  pub append_cancel_left : (xs ys zs : List A) → xs ++ ys ≡ xs ++ zs → ys ≡ zs
  append_cancel_left [] ys zs h = h
  append_cancel_left (x ∷ xs) ys zs h = append_cancel_left xs ys zs (cc)

  -- Equal texts whose endings have one length have equal endings.
  pub append_split :
      (xs ps ys qs : List A) → xs ++ ps ≡ ys ++ qs → length ps ≡ length qs → (xs ≡ ys) × (ps ≡ qs)
  append_split [] ps [] qs h k = (refl, h)
  append_split [] ps (y ∷ ys) qs h k = absurd (omega (arith, ap length h, length-append ys qs))
  append_split (x ∷ xs) ps [] qs h k = absurd (omega (arith, ap length h, length-append xs ps))
  append_split (x ∷ xs) ps (y ∷ ys) qs h k =
      let (e, f) = append_split xs ps ys qs (cc) k in (cc (e, h), f)

  abbrev pub take : ℕ → List A → List A
  take zero xs = []
  take (suc n) [] = []
  take (suc n) (x ∷ xs) = x ∷ take n xs

  abbrev pub drop : ℕ → List A → List A
  drop zero xs = xs
  drop (suc n) [] = []
  drop (suc n) (x ∷ xs) = drop n xs

  abbrev pub replicate : ℕ → A → List A
  replicate zero x = []
  replicate (suc n) x = x ∷ replicate n x

  pub length-replicate : (n : ℕ) (x : A) → length (replicate n x) ≡ n
  length-replicate zero x = refl
  length-replicate (suc n) x = omega (arith, length-replicate n x)

-- `words[i]`; no index of the program is out of range
abbrev pub nth : List ℕ → ℕ → ℕ
nth [] i = 0
nth (x ∷ xs) zero = x
nth (x ∷ xs) (suc i) = nth xs i
