-- ===== src/WalkForward.antt =====
-- The walk-forward run of python/perpcarry/strategy/walk_forward.py: its records and state. Children
-- model the methods of `_Runner` (Trading, Decisions, Process) and prove what a run keeps.
--
-- An exception ends the run, so that what a method had assigned before it is not in the model.
pub mod Trading
pub mod Decisions
pub mod Reports
pub mod Stream
pub mod Market
pub mod Process
pub mod Keeps
pub mod Booked
pub mod Balance
pub mod Safe
pub mod Steps
pub mod FundingSteps
pub mod Run
pub mod Schedule
pub mod Sealed
pub mod Observed
pub mod Executors
pub mod Samples
mod Examples
use perpetuals_carry_strateg.Base.{
  ℕ, ◌+◌, ◌-◌, ◌*◌, ◌%◌, String, Bool, true, false, not, ◌&&◌, ◌||◌, Option, none, some, List, [],
  ◌∷◌, ltb, leb, ◌==◌,
}
use perpetuals_carry_strateg.Base.Text.{str_eq}
use perpetuals_carry_strateg.Base.Result.{Result, ok, Error, raise_if, ◌>>◌}
use perpetuals_carry_strateg.Number.{Number, ◌≺◌, one}
use perpetuals_carry_strateg.Checks.{integer, positive_decimal}
use perpetuals_carry_strateg.Calendar.{fold_start}
use perpetuals_carry_strateg.Fees.{FeeSchedule}
use perpetuals_carry_strateg.Accounting.State.{
  hour_ms, settlement_guard_ms, Fill, Ledger, Valuation,
}
use perpetuals_carry_strateg.Carry.Types.{Policy, Position, CumulativeFundingForecast}
use perpetuals_carry_strateg.Carry.Decide.{CarryStrategy, Decision}
use perpetuals_carry_strateg.Rolling.History.{Row, RollingFundingModel}
use perpetuals_carry_strateg.Sizing.{SizingResult}
use perpetuals_carry_strateg.Execution.{MarketEvent}

pub data ExecutionMode : Type 0 where
  inferred book : ExecutionMode

abbrev pub mode_eq : ExecutionMode → ExecutionMode → Bool
mode_eq ExecutionMode.inferred ExecutionMode.inferred = true
mode_eq ExecutionMode.book ExecutionMode.book = true
mode_eq _ _ = false

-- The prior of the regression is part of `Environment.paths`.
pub record Config (D F : Type 0) : Type 0 where
  pub symbol : String
  pub warmup_start_ms : ℕ
  pub start_ms : ℕ
  pub end_ms : ℕ
  pub initial_capital_usdt : D
  pub collateral_fraction : D
  pub policy : Policy F
  pub execution_mode : ExecutionMode
  pub seed : ℕ
  pub draws : ℕ
  pub rolling_days : ℕ
  pub min_settlements : ℕ
  pub interval_hours : ℕ
  pub impact_rolling_days : ℕ
  pub decision_delay_ms : ℕ

pub record FundingEvent (D : Type 0) : Type 0 where
  pub event_id : String
  pub time_ms : ℕ
  pub rate : D
  pub interval_hours : ℕ
  pub mark_price : Option D

-- An event of the stream, which is of one of two classes.
pub data StreamEvent (D F : Type 0) : Type 0 where
  funding : FundingEvent D → StreamEvent D F
  market : MarketEvent D F → StreamEvent D F

pub data EventType : Type 0 where
  funding market : EventType

-- `Summary` stands for the dictionary of statistics of a forecast.
pub record Record (D F Summary : Type 0) : Type 0 where
  pub event_id : String
  pub time_ms : ℕ
  pub fold_start_ms : ℕ
  pub event_type : EventType
  pub decision : Option (Decision F)
  pub valuation : Option (Valuation D)
  pub planned_settlements : Option ℕ
  pub settlements_held : ℕ
  pub quantity_base : D
  pub adv_fraction : Option F
  pub notional_usdt : Option D
  pub impact_sha256 : Option String
  pub funding_approval_sha256 : Option String
  pub forecast : Option (Summary × String)
  pub execution_mode : ExecutionMode
  pub cash_usdt : D
  pub funding_usdt : D
  pub evidence_admitted : Bool
  pub sizing : Option (SizingResult D F)

-- The backend that proposes the fills of a quantity, for opening or closing.
pub record Executor (D F : Type 0) : Type 0 where
  pub mode : ExecutionMode
  pub fills : MarketEvent D F → D → Bool → Result (List (Fill D))

-- What a run is given. The last four are hashes and NumPy code: the digest of the model, the seed
-- that SHA-256 gives for a seed, a symbol and a time, the sampled paths, and their statistics.
pub record Environment (D F Summary : Type 0) : Type 0 where
  pub config : Config D F
  pub fees : FeeSchedule D
  pub executor : Executor D F
  pub model_sha256 : String
  pub seed_of : ℕ → String → ℕ → ℕ
  pub paths : List (Row F) → ℕ → ℕ → ℕ → Result (List F)
  pub summarize : CumulativeFundingForecast F → Summary

-- The attributes of `_Runner` that change; `config`, `fees`, `executor` and `strategy` do not.
pub record Runner (D F : Type 0) : Type 0 where
  pub model : RollingFundingModel F
  pub ledger : Ledger D
  pub position : Option (Position F)
  pub last_time : ℕ
  pub next_observation_ms : ℕ
  pub ids : List String
  pub fold_curves : List (ℕ × String)
  pub next_decision_ms : ℕ

abbrev pub strategy_of : {D F : Type 0} → Config D F → CarryStrategy F
strategy_of config = record { symbol = config.symbol; policy = config.policy }

module _ {D F : Type 0} where
  abbrev pub interval_ms : Config D F → ℕ
  interval_ms config = config.interval_hours * hour_ms

  -- The tests of `Config.__post_init__` on the scope of the run.
  unfoldable pub scope_refused : Config D F → Bool
  scope_refused c =
      not (str_eq c.symbol "BTCUSDT" || str_eq c.symbol "SOLUSDT")
      || (not (ltb c.warmup_start_ms c.start_ms && ltb c.start_ms c.end_ms)
          || (not (c.start_ms == fold_start c.start_ms)
              || (not (c.end_ms == fold_start c.end_ms)
                  || (ltb 24 c.interval_hours
                      || (not (24 % c.interval_hours == 0)
                          || (leb (interval_ms c - settlement_guard_ms) c.decision_delay_ms
                              || not (c.warmup_start_ms % interval_ms c == 0)))))))

module _ {D F : Type 0} ⦃d : Number D⦄ where
  -- `Config.__post_init__`
  unfoldable pub check_config : Config D F → Result (Config D F)
  unfolding integer positive_decimal scope_refused
  check_config c = do
    integer c.warmup_start_ms 0
    integer c.start_ms 0
    integer c.end_ms 0
    integer c.seed 0
    integer c.draws 2
    integer c.rolling_days 1
    integer c.impact_rolling_days 1
    integer c.min_settlements 3
    integer c.interval_hours 1
    positive_decimal c.initial_capital_usdt
    positive_decimal c.collateral_fraction
    integer c.decision_delay_ms (settlement_guard_ms + 1)
    raise_if (scope_refused c || one ≺ c.collateral_fraction) Error.value_error
    ok c
