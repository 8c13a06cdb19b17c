-- ===== src/Number/Laws.antt =====
-- What proofs assume of the arithmetic of a `Number`.
use perpetuals_carry_strateg.Base.{true, false, not, ◌≡◌, ◌↔◌}
use perpetuals_carry_strateg.Number.{
  Number, ◌⊕◌, ◌⊖◌, ◌⊗◌, ◌≺◌, ◌≼◌, ◌≗◌, negate, nought, is_finite,
}

-- Sums, differences and products that do not round: `decimal` within the digits of its context.
-- Values that compare equal are one value. Nothing is assumed of quotients.
pub record IsExact (N : Type 0) ⦃n : Number N⦄ : Type 0 where
  pub add_comm : (a b : N) → a ⊕ b ≡ b ⊕ a
  pub add_assoc : (a b c : N) → a ⊕ b ⊕ c ≡ a ⊕ (b ⊕ c)
  pub add-nought : (a : N) → a ⊕ nought ≡ a
  pub add-negate : (a : N) → a ⊕ negate a ≡ nought
  pub sub-eq-add : (a b : N) → a ⊖ b ≡ a ⊕ negate b
  pub mul_comm : (a b : N) → a ⊗ b ≡ b ⊗ a
  pub mul-add : (a b c : N) → a ⊗ (b ⊕ c) ≡ a ⊗ b ⊕ a ⊗ c
  pub eq_iff : (a b : N) → ((a ≗ b) ≡ true) ↔ (a ≡ b)

-- The comparisons of finite values are those of a linear order.
pub record IsOrdered (N : Type 0) ⦃n : Number N⦄ : Type 0 where
  pub le-not-lt : (a b : N) → is_finite a ≡ true → is_finite b ≡ true → (a ≼ b) ≡ not (b ≺ a)
  pub lt_irrefl : (a : N) → (a ≺ a) ≡ false
  pub lt_trans : (a b c : N) → (a ≺ b) ≡ true → (b ≺ c) ≡ true → (a ≺ c) ≡ true
  pub le_trans : (a b c : N) → (a ≼ b) ≡ true → (b ≼ c) ≡ true → (a ≼ c) ≡ true
  pub lt_of_lt_le : (a b c : N) → (a ≺ b) ≡ true → (b ≼ c) ≡ true → (a ≺ c) ≡ true
  pub lt_of_le_lt : (a b c : N) → (a ≼ b) ≡ true → (b ≺ c) ≡ true → (a ≺ c) ≡ true
  pub le_of_lt : (a b : N) → (a ≺ b) ≡ true → (a ≼ b) ≡ true
