-- ===== src/Sizing.antt =====
-- Position sizing: the records of python/perpcarry/strategy/sizing.py, with their checks. Children
-- model `size_position`: Market its limits, Search its loop over lots, Choice the rest.
pub mod Search
pub mod Market
pub mod Choice
pub mod Position
pub mod Sized
pub mod Limits
mod Examples
mod Signed
use perpetuals_carry_strateg.Base.{ℕ, ◌+◌, ◌*◌, ◌%◌, String, not, ◌||◌, Option, List, leb, ◌==◌}
use perpetuals_carry_strateg.Base.Text.{is_empty, is_digest}
use perpetuals_carry_strateg.Base.Result.{Result, ok, Error, raise_if, ◌>>◌}
use perpetuals_carry_strateg.Number.{Number, ◌⊕◌, ◌≺◌, ◌≗◌, nought, is_finite}
use perpetuals_carry_strateg.Checks.{integer, number}
use perpetuals_carry_strateg.Carry.Types.{CostEstimate}
use perpetuals_carry_strateg.Carry.Decide.{Decision}
use perpetuals_carry_strateg.Costs.{ImpactCurve, ExecutionCharges, of_bps, check_charges}
use perpetuals_carry_strateg.Rolling.History.{day_ms}

pub record SizingInputs (D F : Type 0) : Type 0 where
  pub symbol : String
  pub observed_at_ms : ℕ
  pub valid_until_ms : ℕ
  pub price_usdt : F
  pub adv_base : F
  pub adv_start_ms : ℕ
  pub adv_end_exclusive_ms : ℕ
  pub adv_sha256 : String
  pub quantity_step : D
  pub min_quantity : D
  pub min_notional_usdt : F
  pub max_notional_usdt : F
  pub max_adv_fraction : F
  pub validated_quantity_base : F
  pub metadata_valid_from_ms : ℕ
  pub metadata_valid_until_ms : ℕ
  pub metadata_sha256 : String

pub data RootStatus : Type 0 where
  unavailable no_finite_root below_support above_support within_support : RootStatus

pub data Limit : Type 0 where
  entry_gate model_support validated_depth max_adv max_notional : Limit

pub record SizingResult (D F : Type 0) : Type 0 where
  pub quantity_base : D
  pub notional_usdt : F
  pub adv_fraction : F
  pub expected_net_usdt : F
  pub marginal_net_fraction : Option F
  pub decision : Decision F
  pub cost_estimate : Option (CostEstimate F)
  pub feasible_max_adv_fraction : Option F
  pub break_even_adv_fraction : Option F
  pub break_even_status : RootStatus
  pub binding_limits : List Limit
  pub feasible_max_notional_usdt : Option F
  pub break_even_notional_usdt : Option F

module _ {F : Type 0} ⦃n : Number F⦄ where
  -- `ExecutionCharges.fixed_fraction`; the sum starts at 0.
  abbrev pub fixed_fraction : ExecutionCharges F → F
  fixed_fraction charges =
      nought
      ⊕ of_bps charges.entry_half_spread_bps
      ⊕ of_bps charges.close_half_spread_bps
      ⊕ of_bps charges.entry_fee_bps
      ⊕ of_bps charges.close_fee_bps
      ⊕ of_bps charges.hedge_entry_bps
      ⊕ of_bps charges.hedge_close_bps
      ⊕ charges.financing_fraction

  -- `ExecutionCharges.__post_init__`
  unfoldable pub checked_charges : ExecutionCharges F → Result (ExecutionCharges F)
  unfolding check_charges
  checked_charges charges = do check_charges charges; number (fixed_fraction charges); ok charges

  -- `ImpactCurve.round_trip_coefficient`
  abbrev pub round_trip_coefficient : ImpactCurve F → F
  round_trip_coefficient curve =
      of_bps curve.sell_coefficient_bps ⊕ of_bps curve.buy_coefficient_bps

  -- The loop over the floats of `SizingInputs`: all but the least notional are positive.
  unfoldable pub positive_number : F → Result (Unit {0})
  positive_number value = do number value; raise_if (value ≗ nought) Error.value_error; ok tt

module _ {D F : Type 0} ⦃d : Number D⦄ ⦃n : Number F⦄ where
  -- `SizingInputs.__post_init__`
  unfoldable pub check_inputs : SizingInputs D F → Result (SizingInputs D F)
  unfolding integer number positive_number is_digest
  check_inputs m = do
    raise_if (is_empty m.symbol) Error.value_error
    integer m.observed_at_ms 0
    integer m.adv_start_ms 0
    integer m.adv_end_exclusive_ms 0
    integer m.metadata_valid_from_ms 0
    integer m.metadata_valid_until_ms 0
    integer m.valid_until_ms (m.observed_at_ms + 1)
    raise_if (leb m.metadata_valid_until_ms m.metadata_valid_from_ms) Error.value_error
    raise_if
        (not (m.adv_end_exclusive_ms % day_ms == 0)
          || (not (m.adv_start_ms % day_ms == 0)
              || not (m.adv_end_exclusive_ms == m.adv_start_ms + 30 * day_ms)))
        Error.value_error
    positive_number m.price_usdt
    positive_number m.adv_base
    positive_number m.max_notional_usdt
    positive_number m.max_adv_fraction
    positive_number m.validated_quantity_base
    number m.min_notional_usdt
    raise_if (not (is_finite m.quantity_step) || m.quantity_step ≺ nought) Error.value_error
    raise_if (not (is_finite m.min_quantity) || m.min_quantity ≺ nought) Error.value_error
    raise_if (m.quantity_step ≗ nought) Error.value_error
    raise_if (not (is_digest m.adv_sha256)) Error.value_error
    raise_if (not (is_digest m.metadata_sha256)) Error.value_error
    ok m
