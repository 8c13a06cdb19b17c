-- ===== src/Sizing/Market.antt =====
-- The limits of `size_position` on the quantity, and the quote of a number of lots.
use perpetuals_carry_strateg.Base.{
  ℕ, ◌*◌, ◌/◌, Bool, true, false, not, ◌||◌, Option, none, some, ltb, leb, ◌==◌, if◌then◌else◌,
}
use perpetuals_carry_strateg.Base.Text.{str_eq}
use perpetuals_carry_strateg.Base.Result.{Result, ok, ◌>>=◌}
use perpetuals_carry_strateg.Number.{Number, Conversions, ◌⊗◌, ◌⊘◌, number_of, maximum, minimum}
use perpetuals_carry_strateg.Carry.Types.{Numpy, FundingForecast, FundingApproval, CostEstimate}
use perpetuals_carry_strateg.Carry.Decide.{CarryStrategy, Decision, Action, decide}
use perpetuals_carry_strateg.Costs.{ImpactCurve, ExecutionCharges, from_curve}
use perpetuals_carry_strateg.Rolling.History.{day_ms}
use perpetuals_carry_strateg.Sizing.{SizingInputs}

-- `int(x.to_integral_value(rounding=...))` of a decimal, where 0 stands for a negative integer: as
-- the first lot is 1 at least, there is no lot in either case.
pub record Rounding (D : Type 0) : Type 0 where
  pub floor : D → ℕ
  pub ceiling : D → ℕ

-- `max(m, n)` and `min(m, n)` of integers.
abbrev pub max_int : ℕ → ℕ → ℕ
max_int a b = if ltb a b then b else a

abbrev pub min_int : ℕ → ℕ → ℕ
min_int a b = if ltb b a then b else a

-- The arguments of `size_position`.
pub record Candidate (D F : Type 0) : Type 0 where
  pub strategy : CarryStrategy F
  pub now_ms : ℕ
  pub forecast : Option (FundingForecast F)
  pub approval : Option FundingApproval
  pub market : SizingInputs D F
  pub curve : ImpactCurve F
  pub charges : ExecutionCharges F

pub record Quote (D F : Type 0) : Type 0 where
  pub quantity : D
  pub fraction : F
  pub estimate : CostEstimate F
  pub decision : Decision F

abbrev pub is_enter : Action → Bool
is_enter Action.enter = true
is_enter _ = false

module _ {D F : Type 0} where
  -- Whether the inputs are of another symbol or not in force.
  unfoldable pub inputs_refused : Candidate D F → Bool
  inputs_refused c =
      not (str_eq c.market.symbol c.strategy.symbol)
      || (not (str_eq c.curve.symbol c.strategy.symbol)
          || (ltb c.now_ms c.market.observed_at_ms
              || (leb c.market.valid_until_ms c.now_ms
                  || (not (c.market.adv_end_exclusive_ms == c.now_ms / day_ms * day_ms)
                      || ((ltb c.now_ms c.market.metadata_valid_from_ms
                            || leb c.market.metadata_valid_until_ms c.now_ms)
                          || (ltb c.now_ms c.curve.admitted_at_ms
                              || ltb c.now_ms c.curve.evidence_end_exclusive_ms))))))

module _ {D F : Type 0} ⦃d : Number D⦄ ⦃v : Conversions D F⦄ where
  abbrev pub adv : Candidate D F → D
  adv c = v.to_decimal c.market.adv_base

  abbrev pub price : Candidate D F → D
  price c = v.to_decimal c.market.price_usdt

  -- The entries of `limits`.
  abbrev pub support_limit : Candidate D F → D
  support_limit c = v.to_decimal c.curve.size_max ⊗ adv c

  abbrev pub depth_limit : Candidate D F → D
  depth_limit c = v.to_decimal c.market.validated_quantity_base

  abbrev pub adv_limit : Candidate D F → D
  adv_limit c = v.to_decimal c.market.max_adv_fraction ⊗ adv c

  abbrev pub notional_limit : Candidate D F → D
  notional_limit c = v.to_decimal c.market.max_notional_usdt ⊘ price c

  unfoldable pub upper : Candidate D F → D
  upper c =
      minimum (minimum (minimum (support_limit c) (depth_limit c)) (adv_limit c)) (notional_limit c)

  unfoldable pub lower : Candidate D F → D
  lower c =
      maximum (maximum (v.to_decimal c.curve.size_min ⊗ adv c) c.market.min_quantity)
        (v.to_decimal c.market.min_notional_usdt ⊘ price c)

  abbrev pub quantity_of : Candidate D F → ℕ → D
  quantity_of c lots = c.market.quantity_step ⊗ number_of lots

module _ {D F : Type 0} ⦃d : Number D⦄ ⦃v : Conversions D F⦄ ⦃r : Rounding D⦄ where
  -- The least and the largest number of lots within the limits.
  abbrev pub first_lot : Candidate D F → ℕ
  first_lot c = max_int 1 (r.ceiling (lower c ⊘ c.market.quantity_step))

  abbrev pub last_lot : Candidate D F → ℕ
  last_lot c = r.floor (upper c ⊘ c.market.quantity_step)

module _ {D F : Type 0} ⦃d : Number D⦄ ⦃n : Number F⦄ ⦃v : Conversions D F⦄ ⦃np : Numpy F⦄ where
  abbrev pub estimate_at : Candidate D F → ℕ → Result (CostEstimate F)
  estimate_at c lots =
      from_curve c.curve c.now_ms c.market.valid_until_ms
        (v.to_float (quantity_of c lots ⊗ price c)) (v.to_float (quantity_of c lots ⊘ adv c))
        c.strategy.policy.horizon_settlements c.charges

  unfoldable pub quote : Candidate D F → ℕ → Result (Quote D F)
  quote c lots = do
    estimate ← estimate_at c lots
    decision ← decide c.strategy c.now_ms c.forecast (some estimate) c.approval none
    ok (record {
      quantity = quantity_of c lots;
      fraction = v.to_float (quantity_of c lots ⊘ adv c);
      estimate = estimate;
      decision = decision;
    })

  -- `quote(lots)[3].action == "enter"`
  unfoldable pub gate : Candidate D F → ℕ → Result Bool
  gate c lots = do q ← quote c lots; ok (is_enter q.decision.action)
