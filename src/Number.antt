-- ===== src/Number.antt =====
-- Python's `decimal.Decimal` and `float`, by the operations that the strategy uses on them.
--
-- Neither type is defined here: each is a parameter with an instance of `Number`, and code that
-- uses both takes one type for each. What a proof needs of the arithmetic is a hypothesis:
-- `IsOrdered` for the comparisons and `IsExact` for sums and products.
pub mod Laws
pub mod Linear
pub mod Products
pub mod Whole
pub mod Points
pub mod Counts
use perpetuals_carry_strateg.Base.{ℕ, Bool, ◌||◌, if◌then◌else◌}

pub record Number (N : Type 0) : Type 0 where
  pub nought : N
  pub one : N
  pub of_ℕ : ℕ → N
  pub add : N → N → N
  pub sub : N → N → N
  pub mul : N → N → N
  pub div : N → N → N
  pub neg : N → N
  pub sqrt : N → N
  pub lt : N → N → Bool
  pub le : N → N → Bool
  pub eq : N → N → Bool
  -- `math.isfinite(x)` and `x.is_finite()`
  pub is_finite : N → Bool

-- `float(x)` of a decimal, and `Decimal(str(x))` of a float.
pub record Conversions (D F : Type 0) : Type 0 where
  pub to_float : D → F
  pub to_decimal : F → D

module _ {N : Type 0} ⦃n : Number N⦄ where
  infixl 65 ◌⊕◌ ◌⊖◌
  infixl 70 ◌⊗◌ ◌⊘◌
  infix 50 ◌≺◌ ◌≼◌ ◌≗◌
  abbrev pub ◌⊕◌ : N → N → N
  ◌⊕◌ = n.add

  abbrev pub ◌⊖◌ : N → N → N
  ◌⊖◌ = n.sub

  abbrev pub ◌⊗◌ : N → N → N
  ◌⊗◌ = n.mul

  abbrev pub ◌⊘◌ : N → N → N
  ◌⊘◌ = n.div

  -- `x < y`, `x <= y` and `x == y`
  abbrev pub ◌≺◌ : N → N → Bool
  ◌≺◌ = n.lt

  abbrev pub ◌≼◌ : N → N → Bool
  ◌≼◌ = n.le

  abbrev pub ◌≗◌ : N → N → Bool
  ◌≗◌ = n.eq

  abbrev pub negate : N → N
  negate = n.neg

  -- `x ** 0.5`, `math.sqrt(x)` and `x.sqrt()`
  abbrev pub square_root : N → N
  square_root = n.sqrt

  abbrev pub nought : N
  nought = n.nought

  abbrev pub one : N
  one = n.one

  abbrev pub number_of : ℕ → N
  number_of = n.of_ℕ

  abbrev pub is_finite : N → Bool
  is_finite = n.is_finite

  -- `abs(x)`
  abbrev pub absolute : N → N
  absolute x = if x ≺ nought then negate x else x

  -- `max(x, y)` and `min(x, y)`: the first of two equal values.
  abbrev pub maximum : N → N → N
  maximum x y = if x ≺ y then y else x

  abbrev pub minimum : N → N → N
  minimum x y = if y ≺ x then y else x
