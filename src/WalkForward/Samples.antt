-- ===== src/WalkForward/Samples.antt =====
-- A study of February 1970: its configuration, market and events, and the runners of its first day.
use perpetuals_carry_strateg.Base.{
  ℕ, ◌+◌, ◌*◌, String, Bool, true, false, none, some, List, [], ◌∷◌,
}
use perpetuals_carry_strateg.Base.Text.{sample_digest}
use perpetuals_carry_strateg.Base.Result.{ok}
use perpetuals_carry_strateg.Number.{Conversions}
use perpetuals_carry_strateg.Number.Whole.{pos, negsuc, pos_part}
use perpetuals_carry_strateg.Number.Points.{Points, points_number, whole_number}
use perpetuals_carry_strateg.Rolling.History.{Row}
use perpetuals_carry_strateg.Fees.{Market, FeeKind, FeePeriod, FeeSchedule}
use perpetuals_carry_strateg.Accounting.State.{started}
use perpetuals_carry_strateg.Carry.Samples.{in_points, points_numpy, policy, approval}
use perpetuals_carry_strateg.Carry.Types.{CostKind}
use perpetuals_carry_strateg.Sizing.Market.{Rounding}
use perpetuals_carry_strateg.Execution.{MarketEvent, Opportunity}
use perpetuals_carry_strateg.WalkForward.{
  ExecutionMode, Config, FundingEvent, StreamEvent, Environment, Runner,
}
use perpetuals_carry_strateg.WalkForward.Executors.{inferred_executor}

instance abbrev pub points_conversions : Conversions Points Points
points_conversions = record { to_float = λ a. a; to_decimal = λ a. a }

instance abbrev pub points_rounding : Rounding Points
points_rounding = record { floor = λ a. pos_part a.whole; ceiling = λ a. pos_part a.whole }

abbrev pub february : ℕ
february = 2_678_400_000

abbrev pub hours : ℕ → ℕ
hours n = n * 3_600_000

abbrev pub config : Config Points Points
config = record {
  symbol = "BTCUSDT";
  warmup_start_ms = 2_620_800_000;
  start_ms = february;
  end_ms = 5_097_600_000;
  initial_capital_usdt = whole_number 1000;
  collateral_fraction = whole_number 1;
  policy = policy;
  execution_mode = ExecutionMode.inferred;
  seed = 1;
  draws = 2;
  rolling_days = 2;
  min_settlements = 3;
  interval_hours = 8;
  impact_rolling_days = 30;
  decision_delay_ms = 16_000;
}

abbrev pub period : Market → FeePeriod Points
period on = record {
  symbol = "BTCUSDT";
  market = on;
  start_ms = 0;
  end_ms = 5_097_600_000;
  taker_fraction = in_points 1;
  source = "https://example.org/fees";
  observed_at_ms = 50;
  kind = FeeKind.verified;
}

abbrev pub fees : FeeSchedule Points
fees = record { periods = period Market.perp ∷ period Market.spot ∷ []; allow_assumptions = false }

abbrev pub env : Environment Points Points ℕ
env = record {
  config = config;
  fees = fees;
  executor = inferred_executor;
  model_sha256 = sample_digest;
  seed_of = λ seed symbol time_ms. seed;
  paths = λ rows horizon draws seed. ok (in_points 300_000 ∷ in_points 300_000 ∷ []);
  summarize = λ forecast. 0;
}

abbrev pub settlement : String → ℕ → FundingEvent Points
settlement id time_ms = record {
  event_id = id;
  time_ms = time_ms;
  rate = in_points 0;
  interval_hours = 8;
  mark_price = some (whole_number 100);
}

abbrev pub opportunity : Opportunity Points Points
opportunity = record {
  fold_start_ms = february;
  curve = record {
    symbol = "BTCUSDT";
    admitted_at_ms = 2_000_000_000;
    evidence_end_exclusive_ms = 1_900_000_000;
    artifact_sha256 = sample_digest;
    kind = CostKind.verified_calibration;
    sell_coefficient_bps = in_points 20_000;
    buy_coefficient_bps = in_points 20_000;
    size_min = whole_number 1;
    size_max = whole_number 5;
  };
  approval = some approval;
  market = record {
    symbol = "BTCUSDT";
    observed_at_ms = february;
    valid_until_ms = february + hours 1;
    price_usdt = whole_number 100;
    adv_base = whole_number 1;
    adv_start_ms = 86_400_000;
    adv_end_exclusive_ms = february;
    adv_sha256 = sample_digest;
    quantity_step = whole_number 1;
    min_quantity = whole_number 1;
    min_notional_usdt = whole_number 10;
    max_notional_usdt = whole_number 500;
    max_adv_fraction = whole_number 5;
    validated_quantity_base = whole_number 5;
    metadata_valid_from_ms = 0;
    metadata_valid_until_ms = 3_000_000_000;
    metadata_sha256 = sample_digest;
  };
  perp_half_spread_bps = in_points 10_000;
  spot_execution_bps = in_points 30_000;
  financing_fraction = in_points 0;
}

abbrev pub market_at : String → ℕ → Bool → Points → MarketEvent Points Points
market_at id time_ms decide financing = record {
  event_id = id;
  time_ms = time_ms;
  spot_mid = whole_number 100;
  perp_mid = whole_number 100;
  marks = record {
    symbol = "BTCUSDT";
    time_ms = time_ms;
    spot = whole_number 100;
    perp = whole_number 100;
  };
  opportunity = some opportunity;
  decide = decide;
  financing_usdt = financing;
}

abbrev pub row_at : ℕ → Row Points
row_at time = record { time = time; rate = in_points 0; hours = 8 }

abbrev pub first : Runner Points Points
first = record {
  model = record { rolling_days = 2; min_settlements = 3; history = []; cadence_resets = 0 };
  ledger = started "BTCUSDT" (whole_number 1000) february fees;
  position = none;
  last_time = 2_620_800_000;
  next_observation_ms = 2_620_800_000;
  ids = [];
  fold_curves = [];
  next_decision_ms = february + 16_000;
}

-- After `n` settlements of the warmup.
abbrev pub warm : ℕ → List String → List (Row Points) → Runner Points Points
warm time ids rows = record first {
  model = record { rolling_days = 2; min_settlements = 3; history = rows; cadence_resets = 0 };
  last_time = time;
  next_observation_ms = time + hours 8;
  ids = ids;
}

abbrev pub one_row : List (Row Points)
one_row = row_at 2_620_800_000 ∷ []

abbrev pub two_rows : List (Row Points)
two_rows = row_at 2_620_800_000 ∷ row_at 2_649_600_000 ∷ []

abbrev pub f0 : StreamEvent Points Points
f0 = StreamEvent.funding (settlement "f0" 2_620_800_000)

abbrev pub f1 : StreamEvent Points Points
f1 = StreamEvent.funding (settlement "f1" 2_649_600_000)

abbrev pub f2 : StreamEvent Points Points
f2 = StreamEvent.funding (settlement "f2" february)

abbrev pub decision : MarketEvent Points Points
decision = market_at "m0" (february + 16_000) true (whole_number 1)

abbrev pub warmed : Runner Points Points
warmed = warm 2_649_600_000 ("f1" ∷ "f0" ∷ []) two_rows

-- The first settlement of the study is booked.
abbrev pub booked_runner : Runner Points Points
booked_runner =
    record (warm february ("f2" ∷ "f1" ∷ "f0" ∷ [])
      (row_at 2_620_800_000 ∷ row_at 2_649_600_000 ∷ row_at february ∷ [])) {
        ledger = record first.ledger {
          time_ms = february;
          next_funding_ms = february + hours 8;
          last_funding_ms = some february;
          event_ids = "f2" ∷ [];
        };
      }

-- The decision pays the financing and enters a carry of 4 units.
abbrev pub holding : Runner Points Points
holding = record booked_runner {
  ledger = record booked_runner.ledger {
    cash_usdt = record { whole = pos 599; points = negsuc 1_999 };
    time_ms = february + 16_000;
    spot = record {
      quantity = whole_number 4;
      basis_usdt = record { whole = pos 400; points = pos 1_200 };
      realized_usdt = whole_number 0;
    };
    perp = record {
      quantity = record { whole = negsuc 3; points = pos 0 };
      basis_usdt = record { whole = negsuc 399; points = pos 2_000 };
      realized_usdt = whole_number 0;
    };
    fees_usdt = in_points 800;
    financing_usdt = whole_number 1;
    execution_cost_usdt = in_points 3_200;
    event_ids = "m0:perp" ∷ "m0:spot" ∷ "m0:finance" ∷ "f2" ∷ [];
  };
  position = some (record {
    symbol = "BTCUSDT";
    notional_usdt = whole_number 400;
    opened_at_ms = february + 16_000;
    planned_settlements = 3;
    settlements_held = 0;
    interval_hours = 8;
  });
  last_time = february + 16_000;
  ids = "m0" ∷ "f2" ∷ "f1" ∷ "f0" ∷ [];
  fold_curves = (february, sample_digest) ∷ [];
  next_decision_ms = february + hours 8 + 16_000;
}
