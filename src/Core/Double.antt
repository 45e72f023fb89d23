-- ===== src/Core/Double.antt =====
-- `double`, by what the program uses of it: IEEE 754 arithmetic and comparison. The laws are those of
-- finite sums and quotients of counts; a comparison with a NaN is false.
use career_coordination_mcp.Prelude.{ℕ, ◌<◌, ◌≡◌, Bool, true, false}

pub record Double : Type 1 where
  pub Num : Type 0
  pub zero : Num
  -- `static_cast<double>` of a `size_t`
  pub of_nat : ℕ → Num
  pub add : Num → Num → Num
  pub mul : Num → Num → Num
  pub div : Num → Num → Num
  pub lt : Num → Num → Bool
  pub eq : Num → Num → Bool
  -- Zero divided by a positive count is zero, and nothing is less than itself.
  pub zero_div : (n : ℕ) → 0 < n → div (of_nat 0) (of_nat n) ≡ zero
  pub lt_irrefl : (a : Num) → lt a a ≡ false
  -- Quotients and sums of what is not negative are not negative.
  pub div_nonneg : (m n : ℕ) → lt (div (of_nat m) (of_nat n)) zero ≡ false
  pub add_nonneg : (a b : Num) → lt a zero ≡ false → lt b zero ≡ false → lt (add a b) zero ≡ false
  pub mean_nonneg : (a : Num) (n : ℕ) → lt a zero ≡ false → lt (div a (of_nat n)) zero ≡ false
  -- The order and the equality that comparisons decide.
  pub lt_trans : (a b c : Num) → lt a b ≡ true → lt b c ≡ true → lt a c ≡ true
  pub eq_trans : (a b c : Num) → eq a b ≡ true → eq b c ≡ true → eq a c ≡ true
  pub lt_of_eq : (a b c : Num) → eq a b ≡ true → lt c a ≡ lt c b
  pub lt_eq_of : (a b c : Num) → eq a b ≡ true → lt a c ≡ lt b c
