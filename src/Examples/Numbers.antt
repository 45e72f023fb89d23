-- ===== src/Examples/Numbers.antt =====
-- Whole numbers in place of `double`, for examples.
use career_coordination_mcp.Prelude.{ℕ, ◌+◌, ◌*◌, ◌/◌, ◌<◌, ◌≡◌, ltb, ◌==◌, arith, false, true}
use career_coordination_mcp.Core.Double.{Double}

pub zero_quotient : (n : ℕ) → 0 < n → 0 / n ≡ 0
zero_quotient n h = omega arith

pub not_negative : (n : ℕ) → ltb n 0 ≡ false
not_negative n = ground arith

pub ltb_irrefl : (a : ℕ) → ltb a a ≡ false
ltb_irrefl a = ground arith

pub ltb_trans : (a b c : ℕ) → ltb a b ≡ true → ltb b c ≡ true → ltb a c ≡ true
ltb_trans a b c h k = ground arith

pub ltb_of_== : (a b c : ℕ) → a == b ≡ true → ltb c a ≡ ltb c b
ltb_of_== a b c h = ground arith

pub ==_trans : (a b c : ℕ) → a == b ≡ true → b == c ≡ true → a == c ≡ true
==_trans a b c h k = ground arith

pub ==-ltb : (a b c : ℕ) → a == b ≡ true → ltb a c ≡ ltb b c
==-ltb a b c h = ground arith

abbrev pub whole_numbers : Double
whole_numbers = record {
  Num = ℕ;
  zero = 0;
  of_nat = λ n. n;
  add = λ a b. a + b;
  mul = λ a b. a * b;
  div = λ a b. a / b;
  lt = ltb;
  eq = λ a b. a == b;
  zero_div = zero_quotient;
  lt_irrefl = ltb_irrefl;
  div_nonneg = λ m n. not_negative (m / n);
  add_nonneg = λ a b p q. not_negative (a + b);
  mean_nonneg = λ a n p. not_negative (a / n);
  lt_trans = ltb_trans;
  lt_of_eq = ltb_of_==;
  eq_trans = ==_trans;
  lt_eq_of = ==-ltb;
}
