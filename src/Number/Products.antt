-- ===== src/Number/Products.antt =====
-- Products with negated, subtracted and zero factors.
use perpetuals_carry_strateg.Base.{◌≡◌, sym, ◌∙◌, ap}
use perpetuals_carry_strateg.Number.{Number, ◌⊕◌, ◌⊖◌, ◌⊗◌, negate, nought}
use perpetuals_carry_strateg.Number.Laws.{IsExact}
use perpetuals_carry_strateg.Number.Linear.{nought-add, add_right_cancel}

module _ {N : Type 0} ⦃n : Number N⦄ (exact : IsExact N) where
  open exact use {add_comm, add-nought, add-negate, sub-eq-add, mul_comm, mul-add}

  pub mul-nought : (a : N) → a ⊗ nought ≡ nought
  mul-nought a = add_right_cancel exact _ _ (a ⊗ nought) (
      sym (mul-add a nought nought)
      ∙ ap (λ x. a ⊗ x) (add-nought nought)
      ∙ sym (nought-add exact _))

  pub mul-negate : (a b : N) → a ⊗ negate b ≡ negate (a ⊗ b)
  mul-negate a b = add_right_cancel exact _ _ (a ⊗ b) (
      sym (mul-add a (negate b) b)
      ∙ ap (λ x. a ⊗ x) (add_comm (negate b) b ∙ add-negate b)
      ∙ mul-nought a
      ∙ sym (add_comm (negate (a ⊗ b)) (a ⊗ b) ∙ add-negate (a ⊗ b)))

  pub negate-mul : (a b : N) → negate a ⊗ b ≡ negate (a ⊗ b)
  negate-mul a b = mul_comm (negate a) b ∙ mul-negate b a ∙ ap negate (mul_comm b a)

  pub mul-sub : (a b c : N) → a ⊗ (b ⊖ c) ≡ a ⊗ b ⊖ a ⊗ c
  mul-sub a b c =
      ap (λ x. a ⊗ x) (sub-eq-add b c)
      ∙ mul-add a b (negate c)
      ∙ ap (λ x. a ⊗ b ⊕ x) (mul-negate a c)
      ∙ sym (sub-eq-add (a ⊗ b) (a ⊗ c))

  pub add-mul : (a b c : N) → (a ⊕ b) ⊗ c ≡ a ⊗ c ⊕ b ⊗ c
  add-mul a b c =
      mul_comm (a ⊕ b) c
      ∙ mul-add c a b
      ∙ ap (λ x. x ⊕ c ⊗ b) (mul_comm c a)
      ∙ ap (λ x. a ⊗ c ⊕ x) (mul_comm c b)
