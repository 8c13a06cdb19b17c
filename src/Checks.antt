-- ===== src/Checks.antt =====
-- The argument checks that the strategy modules share: `decimal` and `timestamp` of
-- python/perpcarry/strategy/fees.py, `integer` and `number` of python/perpcarry/strategy/carry.py.
--
-- Types are checked by the model's own types: an integer is a natural number, so the test for a
-- negative one has nothing to refuse. The tests on values are here.
use perpetuals_carry_strateg.Base.{ℕ, not, ◌≡◌, ltb, arith, ◌≤◌}
use perpetuals_carry_strateg.Base.Result.{Result, ok, Error, raise_if, ◌>>◌}
use perpetuals_carry_strateg.Number.{Number, ◌≺◌, ◌≼◌, nought, is_finite}

module _ {N : Type 0} ⦃n : Number N⦄ where
  unfoldable pub decimal : N → Result (Unit {0})
  decimal value = do raise_if (not (is_finite value)) Error.value_error; ok tt

  -- `decimal(value, name, positive=True)`
  unfoldable pub positive_decimal : N → Result (Unit {0})
  unfolding decimal
  positive_decimal value = do decimal value; raise_if (value ≼ nought) Error.value_error; ok tt

  unfoldable pub number : N → Result (Unit {0})
  number value = do
    raise_if (not (is_finite value)) Error.value_error
    raise_if (value ≺ nought) Error.value_error
    ok tt

unfoldable pub integer : ℕ → ℕ → Result (Unit {0})
integer value minimum = do raise_if (ltb value minimum) Error.value_error; ok tt

unfoldable pub timestamp : ℕ → Result (Unit {0})
unfolding integer
timestamp value = integer value 0

pub timestamp-ok : (t : ℕ) → timestamp t ≡ ok tt
unfolding timestamp
timestamp-ok t = ground arith

pub integer-eq-ok : (value minimum : ℕ) → integer value minimum ≡ ok tt → minimum ≤ value
unfolding integer
integer-eq-ok value minimum h = ground arith
