-- ===== src/Execution/Examples.antt =====
-- A carry of 4 units opened by both executors.
use perpetuals_carry_strateg.Base.{ℕ, String, true, false, none, some, ◌≡◌, refl}
use perpetuals_carry_strateg.Base.Text.{sample_digest}
use perpetuals_carry_strateg.Base.Result.{ok}
use perpetuals_carry_strateg.Number.{Conversions}
use perpetuals_carry_strateg.Number.Points.{
  Points, points_number, Points-IsExact, whole_number, plus, opposite, times, over, root,
  root_below, equal,
}
use perpetuals_carry_strateg.Fees.{Market}
use perpetuals_carry_strateg.Accounting.State.{Fill}
use perpetuals_carry_strateg.Carry.Types.{CostKind}
use perpetuals_carry_strateg.Carry.Samples.{in_points, now}
use perpetuals_carry_strateg.Sizing.{SizingInputs}
use perpetuals_carry_strateg.Execution.{
  MarketEvent, Opportunity, BookSnapshot, OrderSide, Walk, execution_refused, inferred_pair,
  inferred_with, inferred_fills, fill_of, walk_refused, book_fill, book_fills,
}
use perpetuals_carry_strateg.Execution.Paired.{
  IsPaired, inferred_fills-IsPaired, book_fills-IsPaired,
}

instance abbrev points_conversions : Conversions Points Points
points_conversions = record { to_float = λ a. a; to_decimal = λ a. a }

abbrev market : SizingInputs Points Points
market = record {
  symbol = "BTCUSDT";
  observed_at_ms = 2_592_010_000;
  valid_until_ms = 2_592_020_000;
  price_usdt = whole_number 100;
  adv_base = whole_number 4;
  adv_start_ms = 0;
  adv_end_exclusive_ms = 2_592_000_000;
  adv_sha256 = sample_digest;
  quantity_step = whole_number 1;
  min_quantity = whole_number 1;
  min_notional_usdt = whole_number 10;
  max_notional_usdt = whole_number 500;
  max_adv_fraction = whole_number 1;
  validated_quantity_base = whole_number 5;
  metadata_valid_from_ms = 0;
  metadata_valid_until_ms = 3_000_000_000;
  metadata_sha256 = sample_digest;
}

abbrev opportunity : Opportunity Points Points
opportunity = record {
  fold_start_ms = 0;
  curve = record {
    symbol = "BTCUSDT";
    admitted_at_ms = 2_000_000_000;
    evidence_end_exclusive_ms = 1_900_000_000;
    artifact_sha256 = sample_digest;
    kind = CostKind.verified_calibration;
    sell_coefficient_bps = in_points 20_000;
    buy_coefficient_bps = in_points 20_000;
    size_min = in_points 1;
    size_max = whole_number 2;
  };
  approval = none;
  market = market;
  perp_half_spread_bps = in_points 10_000;
  spot_execution_bps = in_points 30_000;
  financing_fraction = in_points 1;
}

abbrev event : MarketEvent Points Points
event = record {
  event_id = "e1";
  time_ms = now;
  spot_mid = whole_number 100;
  perp_mid = whole_number 100;
  marks = record {
    symbol = "BTCUSDT";
    time_ms = now;
    spot = whole_number 100;
    perp = whole_number 100;
  };
  opportunity = some opportunity;
  decide = true;
  financing_usdt = whole_number 0;
}

abbrev fill_at : String → Market → Points → Points → Fill Points
fill_at id on quantity price = record {
  event_id = id;
  symbol = "BTCUSDT";
  time_ms = now;
  market = on;
  quantity = quantity;
  price = price;
  reference_mid = whole_number 100;
}

abbrev four : Points
four = whole_number 4

-- The spot is bought 3 points above its mid and the perpetual sold 3 points below.
abbrev pair : Fill Points × Fill Points
unfolding plus opposite times
pair = (
  fill_at "e1:spot" Market.spot four
      (times (whole_number 100) (plus (whole_number 1) (in_points 3))),
  fill_at "e1:perp" Market.perp (opposite four)
      (times (whole_number 100) (plus (whole_number 1) (opposite (in_points 3)))),
)

inferred : inferred_fills event four true ≡ ok pair
unfolding pair inferred_fills inferred_with inferred_pair fill_of execution_refused plus opposite
    times over root root_below
inferred = refl

inferred_fills-IsPaired_example : IsPaired event four true pair
inferred_fills-IsPaired_example = inferred_fills-IsPaired Points-IsExact event four true inferred

abbrev snapshots : ℕ → Market → BookSnapshot (Unit {0})
snapshots time on = record { symbol = "BTCUSDT"; time_ms = time; book = tt }

-- A book that fills in full, a unit away from the mid.
abbrev walk_of : Points → Points → Walk Points
walk_of quantity price = record {
  exhausted_book = false;
  crossed_at_entry = false;
  beyond_validated_depth = false;
  filled_quantity = quantity;
  mid_at_entry = whole_number 100;
  average_price = price;
}

abbrev walks : Unit {0} → OrderSide → Points → Walk Points
walks book OrderSide.buy quantity = walk_of quantity (whole_number 101)
walks book OrderSide.sell quantity = walk_of quantity (whole_number 99)

abbrev book_pair : Fill Points × Fill Points
unfolding opposite
book_pair = (
  fill_at "e1:spot" Market.spot four (whole_number 101),
  fill_at "e1:perp" Market.perp (opposite four) (whole_number 99),
)

booked : book_fills snapshots walks equal event four true ≡ ok book_pair
unfolding book_pair book_fills book_fill walk_refused fill_of times opposite
booked = refl

book_fills-IsPaired_example : IsPaired event four true book_pair
book_fills-IsPaired_example =
    book_fills-IsPaired snapshots walks equal Points-IsExact event four true booked
