-- ===== src/Sizing/Limits.antt =====
-- A size of `size_position` exceeds none of its limits.
use perpetuals_carry_strateg.Base.{ℕ, ◌≤◌, true, false, not, some, ◌≡◌, Bool-cases, inl, inr, arith}
use mathlib.Core.Path.{subst}
use perpetuals_carry_strateg.Base.{◌∙◌, sym, ap, none}
use perpetuals_carry_strateg.Base.Result.{ok, >>=-eq-ok, ok_injective}
use perpetuals_carry_strateg.Number.{
  Number, Conversions, ◌⊗◌, ◌⊘◌, ◌≺◌, ◌≼◌, nought, number_of, is_finite, minimum,
}
use perpetuals_carry_strateg.Number.Laws.{IsOrdered}
use perpetuals_carry_strateg.Carry.Types.{Numpy, CostEstimate}
use perpetuals_carry_strateg.Carry.Decide.{decide}
use perpetuals_carry_strateg.Sizing.{SizingResult}
use perpetuals_carry_strateg.Sizing.Market.{
  Rounding, Candidate, Quote, support_limit, depth_limit, adv_limit, notional_limit, upper,
  first_lot, last_lot, quantity_of, quote, estimate_at,
}
use perpetuals_carry_strateg.Sizing.Position.{size_position}
use perpetuals_carry_strateg.Sizing.Sized.{size_position-IsSized}

module _ {D : Type 0} ⦃d : Number D⦄ (ordered : IsOrdered D) where
  open ordered use {le-not-lt, lt_irrefl, le_of_lt, le_trans}

  le_refl : (a : D) → is_finite a ≡ true → (a ≼ a) ≡ true
  le_refl a f = le-not-lt a a f f ∙ ap not (lt_irrefl a)

  -- The smaller of two finite values is finite and at most both.
  minimum-le :
      (a b : D)
      → is_finite a ≡ true
      → is_finite b ≡ true
      → (is_finite (minimum a b) ≡ true) × ((minimum a b ≼ a) ≡ true) × ((minimum a b ≼ b) ≡ true)
  minimum-le a b fa fb = elim (Bool-cases (b ≺ a)) [
    | inl lt ↦ rw lt (fb, le_of_lt b a lt, le_refl b fb)
    | inr ge ↦ rw ge (fa, le_refl a fa, le-not-lt a b fa fb ∙ ap not ge)
  ]

-- What the floor and the product of decimals keep of the order: a floor is at most its value, and
-- none is left of a negative one; multiplying by a positive step, and reading a natural number,
-- never reverse two finite values.
pub record IsMonotone (D : Type 0) ⦃d : Number D⦄ ⦃r : Rounding D⦄ : Type 0 where
  pub floor-le :
      (x : D) → is_finite x ≡ true → (x ≺ nought) ≡ false → (number_of (r.floor x) ≼ x) ≡ true
  pub floor-negative : (x : D) → (x ≺ nought) ≡ true → r.floor x ≡ 0
  pub number_finite : (k : ℕ) → is_finite (number_of {N = D} k) ≡ true
  pub number_mono : (j k : ℕ) → j ≤ k → (number_of {N = D} j ≼ number_of k) ≡ true
  pub mul_mono :
      (step a b : D)
      → is_finite step ≡ true
      → is_finite a ≡ true
      → is_finite b ≡ true
      → (nought ≺ step) ≡ true
      → (a ≼ b) ≡ true
      → (step ⊗ a ≼ step ⊗ b) ≡ true

module _ {D F : Type 0} ⦃d : Number D⦄ ⦃v : Conversions D F⦄ where
  -- The limits did not overflow.
  pub record IsBounded (c : Candidate D F) : Type 0 where
    pub support : is_finite (support_limit c) ≡ true
    pub depth : is_finite (depth_limit c) ≡ true
    pub participation : is_finite (adv_limit c) ≡ true
    pub notional : is_finite (notional_limit c) ≡ true

  -- The step is positive and finite, and of the upper limit it has a finite quotient, which is not rounded up.
  pub record IsDivided (c : Candidate D F) : Type 0 where
    pub positive : (nought ≺ c.market.quantity_step) ≡ true
    pub finite_step : is_finite c.market.quantity_step ≡ true
    pub finite : is_finite (upper c ⊘ c.market.quantity_step) ≡ true
    pub not_above : (c.market.quantity_step ⊗ (upper c ⊘ c.market.quantity_step) ≼ upper c) ≡ true

  -- The quantity is within each limit.
  pub record IsWithinLimits (c : Candidate D F) (quantity : D) : Type 0 where
    pub support : (quantity ≼ support_limit c) ≡ true
    pub depth : (quantity ≼ depth_limit c) ≡ true
    pub participation : (quantity ≼ adv_limit c) ≡ true
    pub notional : (quantity ≼ notional_limit c) ≡ true

  upper-IsWithinLimits :
      IsOrdered D
      → (c : Candidate D F) (q : D) → IsBounded c
      → (q ≼ upper c) ≡ true
      → IsWithinLimits c q
  unfolding upper
  upper-IsWithinLimits ordered c q b h =
      let (f₁, s₁, s₂) = minimum-le ordered _ _ b.support b.depth in
      let (f₂, p₁, p₂) = minimum-le ordered _ _ f₁ b.participation in
      let (_, n₁, n₂) = minimum-le ordered _ _ f₂ b.notional in
      let at_three = ordered.le_trans _ _ _ h n₁ in
      let at_two = ordered.le_trans _ _ _ at_three p₁ in
      record {
        support = ordered.le_trans _ _ _ at_two s₁;
        depth = ordered.le_trans _ _ _ at_two s₂;
        participation = ordered.le_trans _ _ _ at_three p₂;
        notional = ordered.le_trans _ _ _ h n₂;
      }

module _ {D F : Type 0} ⦃d : Number D⦄ ⦃n : Number F⦄ ⦃v : Conversions D F⦄ ⦃np : Numpy F⦄ where
  quote-quantity :
      (c : Candidate D F) (lots : ℕ) {q : Quote D F}
      → quote c lots ≡ ok q
      → q.quantity ≡ quantity_of c lots
  unfolding quote
  quote-quantity c lots h =
      let (estimate, _, h₁) = >>=-eq-ok (estimate_at c lots) _ h in
      let (decision, _, h₂) =
        >>=-eq-ok (decide c.strategy c.now_ms c.forecast (some estimate) c.approval none) _ h₁ in
      ap (λ q. q.quantity) (sym (ok_injective h₂))

module _ {D F : Type 0} ⦃d : Number D⦄ ⦃n : Number F⦄ ⦃v : Conversions D F⦄ ⦃r : Rounding D⦄
    ⦃np : Numpy F⦄ where
  first_lot-le : (c : Candidate D F) (k : ℕ) → first_lot c ≤ k → 1 ≤ k
  first_lot-le c k h = ground arith

  -- At least one lot, and at most the last, is within the upper limit.
  lots-le-upper :
      IsOrdered D
      → IsMonotone D
      → (c : Candidate D F) (k : ℕ) → IsDivided c
      → 1 ≤ k
      → k ≤ last_lot c
      → (c.market.quantity_step ⊗ number_of k ≼ upper c) ≡ true
  lots-le-upper ordered mono c k divided some_lot within =
      let step = c.market.quantity_step in
      let quotient = upper c ⊘ step in
      let positive : (quotient ≺ nought) ≡ false = elim (Bool-cases (quotient ≺ nought)) [
        | inl below ↦
            let none_left = mono.floor-negative quotient below in
            let never : ⊥ = omega (arith, none_left, some_lot, within) in absurd never
        | inr at_least ↦ at_least
      ] in
      let floored = mono.floor-le quotient divided.finite positive in
      let counted = mono.number_mono k (last_lot c) within in
      ordered.le_trans _ _ _
        (mono.mul_mono step _ _ divided.finite_step (mono.number_finite k) divided.finite
          divided.positive (ordered.le_trans _ _ _ counted floored))
        divided.not_above

  -- The quantity of a size is at most what the impact curve supports, the validated depth, the
  -- share of daily volume and the notional allow, if the step is positive and finite, the limits
  -- are finite
  -- and the quotient of their least by the step is finite and not rounded up. Decimals are taken to
  -- be ordered, and floors, natural numbers and products with a positive step to keep their order.
  pub size_position-IsWithinLimits :
      IsOrdered D
      → IsMonotone D
      → (c : Candidate D F) {result : SizingResult D F} {e : CostEstimate F} → IsBounded c
      → IsDivided c
      → size_position c ≡ ok result
      → result.cost_estimate ≡ some e
      → IsWithinLimits c result.quantity_base
  size_position-IsWithinLimits ordered mono c {result} {e} bounded divided h k =
      let s = size_position-IsSized c {e = e} h k in
      let same = s.quantity ∙ quote-quantity c s.lots s.quote_of_lots in
      let lots_within =
        lots-le-upper ordered mono c s.lots divided (first_lot-le c s.lots s.at_least) s.at_most in
      subst (IsWithinLimits c) (sym same) (upper-IsWithinLimits ordered c _ bounded lots_within)
