-- ===== src/Number/Counts.antt =====
-- Natural numbers as a number type for examples, with quotients and roots rounded down.
use native.Mathlib.Nat.{le-div_iff_mul-le}
use perpetuals_carry_strateg.Base.{ℕ, ◌+◌, ◌-◌, ◌*◌, ◌/◌, ◌≤◌, ◌<◌, true, arith, ltb, leb, ◌==◌}
use perpetuals_carry_strateg.Number.{Number, Conversions}
use perpetuals_carry_strateg.Number.Laws.{IsOrdered}
use perpetuals_carry_strateg.Number.Points.{root_below}

unfoldable pub quotient : ℕ → ℕ → ℕ
quotient a b = a / b

unfoldable pub whole_root : ℕ → ℕ
unfolding root_below
whole_root a = root_below a a

instance abbrev pub counts_number : Number ℕ
counts_number = record {
  nought = 0;
  one = 1;
  of_ℕ = λ a. a;
  add = λ a b. a + b;
  sub = λ a b. a - b;
  mul = λ a b. a * b;
  div = quotient;
  neg = λ a. 0;
  sqrt = whole_root;
  lt = ltb;
  le = leb;
  eq = λ a b. a == b;
  is_finite = λ a. true;
}

instance abbrev pub counts_conversions : Conversions ℕ ℕ
counts_conversions = record { to_float = λ a. a; to_decimal = λ a. a }

pub Counts-IsOrdered : IsOrdered ℕ
Counts-IsOrdered = record {
  le-not-lt = λ a b _ _. ground arith;
  lt_irrefl = λ a. ground arith;
  lt_trans = λ a b c h k. ground arith;
  le_trans = λ a b c h k. ground arith;
  lt_of_lt_le = λ a b c h k. ground arith;
  lt_of_le_lt = λ a b c h k. ground arith;
  le_of_lt = λ a b h. ground arith;
}

-- As many times the divisor as the quotient counts is at most the dividend.
pub mul-le_of_le-quotient : (a b k : ℕ) → 0 < b → k ≤ quotient a b → b * k ≤ a
unfolding quotient
mul-le_of_le-quotient a b k positive h = omega (arith, (le-div_iff_mul-le positive).0 h)
