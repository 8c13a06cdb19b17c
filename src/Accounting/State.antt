-- ===== src/Accounting/State.antt =====
-- The state of python/perpcarry/strategy/accounting.py: the records, `Ledger._event` and
-- `Ledger.start`.
use perpetuals_carry_strateg.Base.{
  ℕ, ◌-◌, ◌%◌, String, Bool, false, not, ◌||◌, Option, none, some, List, [], ◌∷◌, ltb, leb, ◌==◌,
  if◌then◌else◌,
}
use perpetuals_carry_strateg.Base.Lists.{any}
use perpetuals_carry_strateg.Base.Text.{is_empty, str_eq}
use perpetuals_carry_strateg.Base.Result.{Result, ok, err, Error, raise_if, ◌>>◌}
use perpetuals_carry_strateg.Number.{Number, nought}
use perpetuals_carry_strateg.Checks.{positive_decimal, timestamp}
use perpetuals_carry_strateg.Fees.{Market, FeeSchedule}
use perpetuals_carry_strateg.Accounting.Leg.{Leg, flat}

abbrev pub hour_ms : ℕ
hour_ms = 3_600_000

abbrev pub settlement_guard_ms : ℕ
settlement_guard_ms = 15_000

pub record Fill (D : Type 0) : Type 0 where
  pub event_id : String
  pub symbol : String
  pub time_ms : ℕ
  pub market : Market
  pub quantity : D
  pub price : D
  pub reference_mid : D

-- A mark that is missing (`None`) is refused by `settle`.
pub record FundingSettlement (D : Type 0) : Type 0 where
  pub event_id : String
  pub symbol : String
  pub time_ms : ℕ
  pub interval_hours : ℕ
  pub rate : D
  pub mark_price : Option D

pub record Marks (D : Type 0) : Type 0 where
  pub symbol : String
  pub time_ms : ℕ
  pub spot : D
  pub perp : D

pub record Valuation (D : Type 0) : Type 0 where
  pub time_ms : ℕ
  pub cash_usdt : D
  pub spot_quantity : D
  pub perp_quantity : D
  pub price_pnl_usdt : D
  pub funding_usdt : D
  pub fees_usdt : D
  pub financing_usdt : D
  pub execution_cost_usdt : D
  pub gross_pnl_usdt : D
  pub net_pnl_usdt : D
  pub gross_equity_usdt : D
  pub net_equity_usdt : D

pub record Ledger (D : Type 0) : Type 0 where
  pub symbol : String
  pub initial_capital_usdt : D
  pub next_funding_ms : ℕ
  pub fees : FeeSchedule D
  pub cash_usdt : D
  pub time_ms : ℕ
  pub spot : Leg D
  pub perp : Leg D
  pub funding_usdt : D
  pub fees_usdt : D
  pub financing_usdt : D
  pub execution_cost_usdt : D
  pub last_funding_ms : Option ℕ
  pub event_ids : List String

-- `id in ids` and `ids | {id}`, for a set of texts.
abbrev pub contains : String → List String → Bool
contains id ids = any (str_eq id) ids

abbrev pub with_id : List String → String → List String
with_id ids id = if contains id ids then ids else id ∷ ids

-- Whether the last settlement is so near that it is unclear whether it counts the fill.
abbrev pub just_settled : Option ℕ → ℕ → Bool
just_settled none time_ms = false
just_settled (some last) time_ms = leb (time_ms - last) settlement_guard_ms

module _ {D : Type 0} where
  -- `Ledger._event`
  unfoldable pub check_event : Ledger D → String → String → ℕ → Result (Unit {0})
  unfolding timestamp
  check_event l event_id symbol time_ms = do
    timestamp time_ms
    raise_if
        (is_empty event_id
          || (contains event_id l.event_ids
              || (not (str_eq symbol l.symbol) || ltb time_ms l.time_ms)))
        Error.value_error
    ok tt

  abbrev pub leg_of : Ledger D → Market → Leg D
  leg_of l Market.spot = l.spot
  leg_of l Market.perp = l.perp

  -- `replace(ledger, **{market: leg})`
  abbrev pub with_leg : Ledger D → Market → Leg D → Ledger D
  with_leg l Market.spot leg = record l { spot = leg }
  with_leg l Market.perp leg = record l { perp = leg }

-- `decimal(value)` of `None` raises.
abbrev pub given : {D : Type 0} → Option D → Result D
given none = err Error.value_error
given (some value) = ok value

module _ {D : Type 0} ⦃n : Number D⦄ where
  -- The ledger that `Ledger.start` returns.
  abbrev pub started : String → D → ℕ → FeeSchedule D → Ledger D
  started symbol initial_capital_usdt next_funding_ms fees = record {
    symbol = symbol;
    initial_capital_usdt = initial_capital_usdt;
    next_funding_ms = next_funding_ms;
    fees = fees;
    cash_usdt = initial_capital_usdt;
    time_ms = 0;
    spot = flat;
    perp = flat;
    funding_usdt = nought;
    fees_usdt = nought;
    financing_usdt = nought;
    execution_cost_usdt = nought;
    last_funding_ms = none;
    event_ids = [];
  }

  unfoldable pub start : String → D → ℕ → FeeSchedule D → Result (Ledger D)
  unfolding positive_decimal timestamp
  start symbol initial_capital_usdt next_funding_ms fees = do
    positive_decimal initial_capital_usdt
    timestamp next_funding_ms
    raise_if (is_empty symbol || not (next_funding_ms % hour_ms == 0)) Error.value_error
    ok (started symbol initial_capital_usdt next_funding_ms fees)
