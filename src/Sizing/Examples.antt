-- ===== src/Sizing/Examples.antt =====
-- A size over natural numbers: lots of 3, of which the entry gate passes the first 16.
use perpetuals_carry_strateg.Base.{
  ℕ, ◌+◌, leb, ◌≤◌, Bool, true, false, some, List, [], ◌∷◌, ◌≡◌, refl, arith, if◌then◌else◌,
}
use perpetuals_carry_strateg.Base.Lists.{length}
use perpetuals_carry_strateg.Base.Text.{sample_digest, is_digest}
use perpetuals_carry_strateg.Base.Result.{Result, ok}
use perpetuals_carry_strateg.Checks.{integer, number}
use perpetuals_carry_strateg.Number.Points.{root_below}
use perpetuals_carry_strateg.Number.Counts.{quotient, whole_root, counts_number, counts_conversions}
use perpetuals_carry_strateg.Carry.Types.{
  Numpy, FundingForecast, CostKind, CostEstimate, check_estimate,
}
use perpetuals_carry_strateg.Carry.Decide.{CarryStrategy, Action, Reason, measured, decide, hurdle}
use perpetuals_carry_strateg.Carry.Samples.{now, approval}
use perpetuals_carry_strateg.Costs.{
  ImpactCurve, ExecutionCharges, check_charges, estimate_of, from_curve,
}
use perpetuals_carry_strateg.Sizing.{
  SizingInputs, SizingResult, RootStatus, Limit, check_inputs, positive_number,
}
use perpetuals_carry_strateg.Sizing.Search.{search, IsEdge, search-finds, search_largest}
use perpetuals_carry_strateg.Sizing.Market.{
  Rounding, Candidate, inputs_refused, upper, lower, quote, gate, first_lot, last_lot,
}
use perpetuals_carry_strateg.Sizing.Choice.{
  samples_of, factor_of, root_of, labels, notional_of, candidates, best_of,
}
use perpetuals_carry_strateg.Sizing.Position.{
  target_of, sized, conclude, choose_by_mean, choose, size_from, size_position,
}
use perpetuals_carry_strateg.Sizing.Sized.{IsSized, size_position-IsSized}

abbrev total : List ℕ → ℕ
total [] = 0
total (x ∷ xs) = x + total xs

abbrev passed : List Bool → ℕ
passed [] = 0
passed (b ∷ bs) = let rest = passed bs in if b then 1 + rest else rest

-- Mean and share, rounded down.
instance abbrev pub counts_numpy : Numpy ℕ
counts_numpy = record {
  mean = λ xs. quotient (total xs) (length xs);
  share = λ bs. quotient (passed bs) (length bs);
}

instance abbrev counts_rounding : Rounding ℕ
counts_rounding = record { floor = λ a. a; ceiling = λ a. a }

abbrev pub market : SizingInputs ℕ ℕ
market = record {
  symbol = "BTCUSDT";
  observed_at_ms = 2_592_010_000;
  valid_until_ms = 2_592_020_000;
  price_usdt = 2;
  adv_base = 1;
  adv_start_ms = 0;
  adv_end_exclusive_ms = 2_592_000_000;
  adv_sha256 = sample_digest;
  quantity_step = 3;
  min_quantity = 2;
  min_notional_usdt = 10;
  max_notional_usdt = 500;
  max_adv_fraction = 100;
  validated_quantity_base = 300;
  metadata_valid_from_ms = 0;
  metadata_valid_until_ms = 3_000_000_000;
  metadata_sha256 = sample_digest;
}

abbrev pub curve : ImpactCurve ℕ
curve = record {
  symbol = "BTCUSDT";
  admitted_at_ms = 2_000_000_000;
  evidence_end_exclusive_ms = 1_900_000_000;
  artifact_sha256 = sample_digest;
  kind = CostKind.verified_calibration;
  sell_coefficient_bps = 10_000;
  buy_coefficient_bps = 10_000;
  size_min = 1;
  size_max = 400;
}

abbrev pub charges : ExecutionCharges ℕ
charges = record {
  entry_half_spread_bps = 0;
  close_half_spread_bps = 0;
  entry_fee_bps = 0;
  close_fee_bps = 0;
  hedge_entry_bps = 0;
  hedge_close_bps = 0;
  financing_fraction = 0;
}

abbrev pub strategy : CarryStrategy ℕ
strategy = record {
  symbol = "BTCUSDT";
  policy = record {
    horizon_settlements = 3;
    entry_probability = 0;
    continuation_probability = 0;
    allow_synthetic_costs = false;
  };
}

abbrev pub forecast : FundingForecast ℕ
forecast = record {
  symbol = "BTCUSDT";
  prediction = record {
    samples = 14 ∷ 16 ∷ [];
    horizon_settlements = 3;
    interval_hours = 8;
    as_of = now;
    last_observation_time = 2_592_000_000;
    training_first_time = 0;
    training_settlements = 90;
    seed = 1;
  };
  model_sha256 = sample_digest;
}

abbrev candidate : Candidate ℕ ℕ
candidate = record {
  strategy = strategy;
  now_ms = now;
  forecast = some forecast;
  approval = some approval;
  market = market;
  curve = curve;
  charges = charges;
}

market_checked : check_inputs market ≡ ok market
unfolding check_inputs integer number positive_number is_digest
market_checked = refl

lots_allowed : (first_lot candidate ≡ 1) × (last_lot candidate ≡ 33)
unfolding lower upper quotient
lots_allowed = (refl, refl)

-- 48 units: sqrt(48) rounds to 6, so that the cost is 12 of the 15 expected.
abbrev pub estimate : CostEstimate ℕ
estimate = record {
  symbol = "BTCUSDT";
  notional_usdt = 96;
  horizon_settlements = 3;
  quoted_at_ms = now;
  valid_until_ms = 2_592_020_000;
  evidence_end_exclusive_ms = 1_900_000_000;
  artifact_sha256 = sample_digest;
  kind = CostKind.verified_calibration;
  entry_fraction = 6;
  close_now_fraction = 6;
  terminal_close_fraction = 6;
  financing_fraction = 0;
}

abbrev pub result : SizingResult ℕ ℕ
result = record {
  quantity_base = 48;
  notional_usdt = 96;
  adv_fraction = 48;
  expected_net_usdt = 288;
  marginal_net_fraction = some 3;
  decision = measured 1 3 Action.enter Reason.positive_cost_adjusted_edge;
  cost_estimate = some estimate;
  feasible_max_adv_fraction = some 48;
  break_even_adv_fraction = some 49;
  break_even_status = RootStatus.within_support;
  binding_limits = Limit.entry_gate ∷ [];
  feasible_max_notional_usdt = some 96;
  break_even_notional_usdt = some 98;
}

size_found : size_position candidate ≡ ok result
unfolding size_position inputs_refused size_from choose choose_by_mean search gate quote sized
    conclude candidates best_of target_of labels notional_of root_of samples_of factor_of upper
    lower quotient whole_root root_below from_curve estimate_of check_charges check_estimate integer
    number is_digest decide hurdle
size_found = refl

size_position-IsSized_example : IsSized candidate result
size_position-IsSized_example = size_position-IsSized candidate {e = estimate} size_found refl

-- A gate that passes up to 16 lots.
abbrev up_to_16 : ℕ → Result Bool
up_to_16 k = ok (leb k 16)

search-finds_example :
    (r : ℕ) × (search up_to_16 32 1 33 ≡ ok r) × (1 ≤ r) × (r ≤ 33) × IsEdge up_to_16 33 r
search-finds_example = search-finds up_to_16 1 33 (omega arith) (λ k _ _. (leb k 16, refl)) refl

sixteen_found : search up_to_16 32 1 33 ≡ ok 16
unfolding search
sixteen_found = refl

-- Passing is kept by fewer lots.
up_to_16_mono : (j k : ℕ) → 1 ≤ j → j ≤ k → k ≤ 33 → up_to_16 k ≡ ok true → up_to_16 j ≡ ok true
up_to_16_mono j k a b c h = ground arith

search_largest_example :
    (up_to_16 16 ≡ ok true) × ((k : ℕ) → 1 ≤ k → k ≤ 33 → up_to_16 k ≡ ok true → k ≤ 16)
search_largest_example =
    search_largest up_to_16 1 33 16 (omega arith) (λ k _ _. (leb k 16, refl)) refl up_to_16_mono
      sixteen_found
