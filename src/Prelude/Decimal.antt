-- ===== src/Prelude/Decimal.antt =====
-- `std::stoi` and `std::stoll` on the texts that `std::to_string` makes of natural numbers.
use career_coordination_mcp.Prelude.Tests.{ltb, leb, if◌then◌else◌, Bool-cases}
use career_coordination_mcp.Prelude.Text.{Str, decimal, to_string}
use Prim.Native.Nat.{ℕ, zero, suc, ◌+◌, ◌-◌, ◌*◌, ◌/◌, ◌%◌, ◌<◌}
use mathlib.Core.Path.{◌≡◌, ◌∙◌, sym, ap}
use mathlib.Core.Logic.{inl, inr}
use mathlib.Core.Bool.{Bool, true, false, ◌&&◌}
use mathlib.Core.Option.{Option, none, some}
use mathlib.Core.List.{[], ◌∷◌, ◌++◌, append_assoc, append-nil}
use native.Mathlib.Omega.{arith}

unfoldable pub is_digit : ℕ → Bool
is_digit c = leb b'0' c && leb c b'9'

-- The value so far, continued over the digits that follow
unfoldable pub read_digits : ℕ → Str → ℕ
unfolding is_digit
read_digits value [] = value
read_digits value (c ∷ cs) =
    let rest = read_digits (value * 10 + (c - b'0')) cs in if is_digit c then rest else value

-- The number at the start of a text; without one, `std::invalid_argument`. The blanks and the sign
-- that `std::stoi` would also accept are in no text of the program.
unfoldable pub stoi : Str → Option ℕ
unfolding is_digit read_digits
stoi [] = none
stoi (c ∷ cs) = if is_digit c then some (read_digits 0 (c ∷ cs)) else none

decimal_small : (fuel n : ℕ) → ltb n 10 ≡ true → decimal (suc fuel) n ≡ (b'0' + n) ∷ []
unfolding decimal
decimal_small fuel n h = rw (h, decimal)

decimal_large :
    (fuel n : ℕ)
    → ltb n 10 ≡ false
    → decimal (suc fuel) n ≡ decimal fuel (n / 10) ++ (b'0' + n % 10) ∷ []
unfolding decimal
decimal_large fuel n h = rw (h, decimal)

-- One digit more.
read_digits-digit :
    (value d : ℕ) (rest : Str)
    → d < 10
    → read_digits value ((b'0' + d) ∷ rest) ≡ read_digits (value * 10 + d) rest
unfolding read_digits is_digit
read_digits-digit value d rest h =
    let digit : (leb b'0' (b'0' + d) && leb (b'0' + d) b'9') ≡ true = ground arith in
    let worth : b'0' + d - b'0' ≡ d = omega arith in rw (digit, worth)

read_digits-decimal :
    (fuel n : ℕ) (rest : Str)
    → n < fuel
    → read_digits 0 (decimal fuel n ++ rest) ≡ read_digits n rest
read_digits-decimal zero n rest h = elim h [ ]
read_digits-decimal (suc fuel) n rest h = elim (Bool-cases (ltb n 10)) [
  | inl small ↦
      rw (decimal_small fuel n small)
        (read_digits-digit 0 n rest (ground arith) ∙ ap (λ v. read_digits v rest) (omega arith))
  | inr large ↦
      rw (decimal_large fuel n large, append_assoc)
        (read_digits-decimal fuel (n / 10) ((b'0' + n % 10) ∷ rest) (ground arith)
          ∙ read_digits-digit (n / 10) (n % 10) rest (omega arith)
          ∙ ap (λ v. read_digits v rest) (omega arith))
]

-- A text that starts with a digit.
abbrev starts : Str → Bool
starts [] = false
starts (c ∷ cs) = is_digit c

starts-append : (s t : Str) → starts s ≡ true → starts (s ++ t) ≡ true
starts-append [] t h = cc
starts-append (c ∷ s) t h = h

starts-decimal : (fuel n : ℕ) → n < fuel → starts (decimal fuel n) ≡ true
unfolding is_digit
starts-decimal zero n h = elim h [ ]
starts-decimal (suc fuel) n h = elim (Bool-cases (ltb n 10)) [
  | inl small ↦ rw (decimal_small fuel n small) (ground arith)
  | inr large ↦
      rw (decimal_large fuel n large)
        (starts-append (decimal fuel (n / 10)) _ (starts-decimal fuel (n / 10) (ground arith)))
]

stoi-starts : (s : Str) → starts s ≡ true → stoi s ≡ some (read_digits 0 s)
unfolding stoi
stoi-starts [] h = cc
stoi-starts (c ∷ cs) h = rw h

-- Reading what was written gives the number back.
pub stoi-to_string : (n : ℕ) → stoi (to_string n) ≡ some n
unfolding to_string read_digits
stoi-to_string n =
    stoi-starts (to_string n) (starts-decimal (suc n) n (omega arith))
    ∙ ap some (
        ap (read_digits 0) (sym (append-nil (to_string n)))
        ∙ read_digits-decimal (suc n) n [] (omega arith))
