-- ===== src/Costs/Examples.antt =====
-- An impact curve, charges, and the estimate that they give for the sample strategy.
use perpetuals_carry_strateg.Base.{◌≤◌, true, false, none, ◌≡◌, refl}
use perpetuals_carry_strateg.Base.Text.{sample_digest, is_digest}
use perpetuals_carry_strateg.Base.Result.{ok}
use perpetuals_carry_strateg.Checks.{integer, number}
use perpetuals_carry_strateg.Number.Points.{
  Points, points_number, whole_number, plus, opposite, times, over, root,
}
use perpetuals_carry_strateg.Carry.Types.{CostKind, CostEstimate, check_estimate}
use perpetuals_carry_strateg.Carry.Decide.{costs_refused}
use perpetuals_carry_strateg.Carry.Samples.{strategy, now}
use perpetuals_carry_strateg.Costs.{
  ImpactCurve, ExecutionCharges, check_curve, check_charges, estimate_of, supports, from_curve,
}
use perpetuals_carry_strateg.Costs.Admitted.{from_curve-admitted}

abbrev curve : ImpactCurve Points
curve = record {
  symbol = "BTCUSDT";
  admitted_at_ms = 2_000_000_000;
  evidence_end_exclusive_ms = 1_900_000_000;
  artifact_sha256 = sample_digest;
  kind = CostKind.verified_calibration;
  sell_coefficient_bps = whole_number 20_000;
  buy_coefficient_bps = whole_number 30_000;
  size_min = whole_number 1;
  size_max = whole_number 9;
}

abbrev charges : ExecutionCharges Points
charges = record {
  entry_half_spread_bps = whole_number 5_000;
  close_half_spread_bps = whole_number 4_000;
  entry_fee_bps = whole_number 3_000;
  close_fee_bps = whole_number 4_000;
  hedge_entry_bps = whole_number 2_000;
  hedge_close_bps = whole_number 2_000;
  financing_fraction = whole_number 1;
}

curve_checked : check_curve curve ≡ ok curve
unfolding check_curve check_estimate integer number is_digest
curve_checked = refl

-- 2 sqrt(4) + 1 to enter and 3 sqrt(4) + 1 to close.
abbrev estimate : CostEstimate Points
estimate = record {
  symbol = "BTCUSDT";
  notional_usdt = whole_number 1000;
  horizon_settlements = 3;
  quoted_at_ms = now;
  valid_until_ms = 2_600_000_000;
  evidence_end_exclusive_ms = 1_900_000_000;
  artifact_sha256 = sample_digest;
  kind = CostKind.verified_calibration;
  entry_fraction = whole_number 5;
  close_now_fraction = whole_number 7;
  terminal_close_fraction = whole_number 7;
  financing_fraction = whole_number 1;
}

estimated :
    from_curve curve now 2_600_000_000 (whole_number 1000) (whole_number 4) 3 charges ≡ ok estimate
unfolding from_curve estimate_of check_charges check_estimate integer number is_digest plus opposite
    times over root
estimated = refl

from_curve-admitted_example :
    (costs_refused strategy now 3 none estimate ≡ false)
    × (supports curve (whole_number 4) ≡ true)
    × (1_900_000_000 ≤ now)
from_curve-admitted_example =
    from_curve-admitted strategy curve now 2_600_000_000 (whole_number 1000) (whole_number 4) 3
      charges estimated refl refl
