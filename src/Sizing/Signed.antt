-- ===== src/Sizing/Signed.antt =====
-- The same size over signed decimals: lots of 3, with quotients in points.
use perpetuals_carry_strateg.Base.{ℕ, ◌-◌, some, ◌≡◌, refl, arith, if◌then◌else◌}
use perpetuals_carry_strateg.Base.Result.{ok}
use perpetuals_carry_strateg.Base.Text.{is_digest}
use perpetuals_carry_strateg.Checks.{integer, number}
use perpetuals_carry_strateg.Number.{Conversions}
use perpetuals_carry_strateg.Number.Whole.{pos, pos_part, ltb_ℤ}
use perpetuals_carry_strateg.Number.Points.{
  Points, points_number, whole_number, plus, opposite, times, over, root_below, times_mono,
  Points-IsOrdered,
}
use perpetuals_carry_strateg.Number.Counts.{quotient, whole_root, counts_number}
use perpetuals_carry_strateg.Carry.Types.{check_estimate}
use perpetuals_carry_strateg.Carry.Decide.{decide, hurdle}
use perpetuals_carry_strateg.Carry.Samples.{now, approval}
use perpetuals_carry_strateg.Costs.{check_charges, estimate_of, from_curve}
use perpetuals_carry_strateg.Sizing.{SizingInputs, SizingResult}
use perpetuals_carry_strateg.Sizing.Search.{search}
use perpetuals_carry_strateg.Sizing.Market.{
  Rounding, Candidate, inputs_refused, upper, lower, quote, gate,
}
use perpetuals_carry_strateg.Sizing.Choice.{
  samples_of, factor_of, root_of, labels, notional_of, candidates, best_of,
}
use perpetuals_carry_strateg.Sizing.Position.{
  target_of, sized, conclude, choose_by_mean, choose, size_from, size_position,
}
use perpetuals_carry_strateg.Sizing.Limits.{
  IsMonotone, IsWithinLimits, size_position-IsWithinLimits,
}
use perpetuals_carry_strateg.Sizing.Examples.{
  counts_numpy, market, curve, charges, strategy, forecast, estimate, result,
}

instance abbrev signed_conversions : Conversions Points ℕ
signed_conversions = record { to_float = λ a. pos_part a.whole; to_decimal = whole_number }

-- A negative part in points leaves one whole less.
abbrev floor_of : Points → ℕ
floor_of a = if ltb_ℤ a.points (pos 0) then pos_part a.whole - 1 else pos_part a.whole

instance abbrev signed_rounding : Rounding Points
signed_rounding = record { floor = floor_of; ceiling = λ a. pos_part a.whole }

abbrev signed_market : SizingInputs Points ℕ
signed_market = record {
  symbol = market.symbol;
  observed_at_ms = market.observed_at_ms;
  valid_until_ms = market.valid_until_ms;
  price_usdt = market.price_usdt;
  adv_base = market.adv_base;
  adv_start_ms = market.adv_start_ms;
  adv_end_exclusive_ms = market.adv_end_exclusive_ms;
  adv_sha256 = market.adv_sha256;
  quantity_step = whole_number 3;
  min_quantity = whole_number 2;
  min_notional_usdt = market.min_notional_usdt;
  max_notional_usdt = market.max_notional_usdt;
  max_adv_fraction = market.max_adv_fraction;
  validated_quantity_base = market.validated_quantity_base;
  metadata_valid_from_ms = market.metadata_valid_from_ms;
  metadata_valid_until_ms = market.metadata_valid_until_ms;
  metadata_sha256 = market.metadata_sha256;
}

abbrev signed_candidate : Candidate Points ℕ
signed_candidate = record {
  strategy = strategy;
  now_ms = now;
  forecast = some forecast;
  approval = some approval;
  market = signed_market;
  curve = curve;
  charges = charges;
}

abbrev signed_result : SizingResult Points ℕ
signed_result = record {
  quantity_base = whole_number 48;
  notional_usdt = result.notional_usdt;
  adv_fraction = result.adv_fraction;
  expected_net_usdt = result.expected_net_usdt;
  marginal_net_fraction = result.marginal_net_fraction;
  decision = result.decision;
  cost_estimate = result.cost_estimate;
  feasible_max_adv_fraction = result.feasible_max_adv_fraction;
  break_even_adv_fraction = result.break_even_adv_fraction;
  break_even_status = result.break_even_status;
  binding_limits = result.binding_limits;
  feasible_max_notional_usdt = result.feasible_max_notional_usdt;
  break_even_notional_usdt = result.break_even_notional_usdt;
}

signed_size_found : size_position signed_candidate ≡ ok signed_result
unfolding size_position inputs_refused size_from choose choose_by_mean search gate quote sized
    conclude candidates best_of target_of labels notional_of root_of samples_of factor_of upper
    lower quotient whole_root root_below from_curve estimate_of check_charges check_estimate integer
    number is_digest decide hurdle plus opposite times over
signed_size_found = refl

signed-IsMonotone : IsMonotone Points
signed-IsMonotone = record {
  floor-le = λ x finite at_least. ground arith;
  floor-negative = λ x below. ground arith;
  number_mono = λ j k h. ground arith;
  number_finite = λ k. refl;
  mul_mono = λ step a b _ _ _. times_mono step a b;
}

size_position-IsWithinLimits_example : IsWithinLimits signed_candidate (whole_number 48)
unfolding upper times over
size_position-IsWithinLimits_example =
    size_position-IsWithinLimits Points-IsOrdered signed-IsMonotone signed_candidate {e = estimate}
      (record { support = refl; depth = refl; participation = refl; notional = refl })
      (record { positive = refl; finite_step = refl; finite = refl; not_above = refl })
      signed_size_found refl
