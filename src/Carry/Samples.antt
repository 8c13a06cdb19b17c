-- ===== src/Carry/Samples.antt =====
-- Inputs of a decision for the examples, over whole numbers and points.
use perpetuals_carry_strateg.Base.{ℕ, suc, Bool, true, false, List, [], ◌∷◌, if◌then◌else◌}
use perpetuals_carry_strateg.Base.Lists.{length}
use perpetuals_carry_strateg.Base.Text.{sample_digest}
use perpetuals_carry_strateg.Number.Whole.{pos}
use perpetuals_carry_strateg.Number.Points.{Points, points_number, whole_number, plus, over}
use perpetuals_carry_strateg.Carry.Types.{
  Numpy, Policy, FundingApproval, FundingForecast, CostKind, CostEstimate,
}
use perpetuals_carry_strateg.Carry.Decide.{CarryStrategy}

abbrev sum : List Points → Points
sum [] = whole_number 0
sum (x ∷ xs) = plus x (sum xs)

abbrev count : List Bool → ℕ
count [] = 0
count (b ∷ bs) = if b then suc (count bs) else count bs

instance abbrev pub points_numpy : Numpy Points
points_numpy = record {
  mean = λ xs. over (sum xs) (whole_number (length xs));
  share = λ bs. over (whole_number (count bs)) (whole_number (length bs));
}

abbrev pub in_points : ℕ → Points
in_points n = record { whole = pos 0; points = pos n }

abbrev pub policy : Policy Points
policy = record {
  horizon_settlements = 3;
  entry_probability = in_points 60;
  continuation_probability = in_points 40;
  allow_synthetic_costs = false;
}

abbrev pub strategy : CarryStrategy Points
strategy = record { symbol = "BTCUSDT"; policy = policy }

abbrev pub now : ℕ
now = 2_592_016_000

abbrev pub forecast : FundingForecast Points
forecast = record {
  symbol = "BTCUSDT";
  prediction = record {
    samples = in_points 30 ∷ in_points 50 ∷ [];
    horizon_settlements = 3;
    interval_hours = 8;
    as_of = now;
    last_observation_time = 2_592_000_000;
    training_first_time = 0;
    training_settlements = 90;
    seed = 1;
  };
  model_sha256 = sample_digest;
}

abbrev pub approval : FundingApproval
approval = record {
  symbol = "BTCUSDT";
  horizons = 1 ∷ 2 ∷ 3 ∷ [];
  interval_hours = 8;
  validation_end_exclusive_ms = 2_000_000_000;
  valid_until_ms = 3_000_000_000;
  evidence_sha256 = sample_digest;
  approved = true;
  model_sha256 = sample_digest;
}

abbrev pub costs : CostEstimate Points
costs = record {
  symbol = "BTCUSDT";
  notional_usdt = whole_number 1000;
  horizon_settlements = 3;
  quoted_at_ms = now;
  valid_until_ms = 2_600_000_000;
  evidence_end_exclusive_ms = 2_000_000_000;
  artifact_sha256 = sample_digest;
  kind = CostKind.verified_calibration;
  entry_fraction = in_points 9;
  close_now_fraction = in_points 8;
  terminal_close_fraction = in_points 8;
  financing_fraction = in_points 1;
}
