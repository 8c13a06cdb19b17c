-- ===== src/WalkForward/Market.antt =====
-- The market branch of `_Runner.process`.
use perpetuals_carry_strateg.Base.{
  ℕ, ◌+◌, ◌-◌, Bool, true, not, ◌&&◌, ◌||◌, Option, none, some, ltb, leb, ◌==◌, if◌then◌else◌,
}
use perpetuals_carry_strateg.Base.Text.{str_eq, joined}
use perpetuals_carry_strateg.Base.Result.{Result, ok, err, Error, raise_if, ◌>>◌, ◌>>=◌}
use perpetuals_carry_strateg.Number.{Number, Conversions, ◌≼◌, nought}
use perpetuals_carry_strateg.Checks.{decimal, positive_decimal}
use perpetuals_carry_strateg.Accounting.State.{settlement_guard_ms}
use perpetuals_carry_strateg.Accounting.Payments.{finance}
use perpetuals_carry_strateg.Accounting.Valuing.{value}
use perpetuals_carry_strateg.Carry.Types.{Numpy, Position, FundingForecast}
use perpetuals_carry_strateg.Carry.Decide.{Decision}
use perpetuals_carry_strateg.Rolling.Forecast.{from_model}
use perpetuals_carry_strateg.Sizing.{SizingResult}
use perpetuals_carry_strateg.Sizing.Market.{Rounding}
use perpetuals_carry_strateg.Execution.{Opportunity, MarketEvent}
use perpetuals_carry_strateg.WalkForward.{Record, Environment, Runner, interval_ms}
use perpetuals_carry_strateg.WalkForward.Trading.{reserve, admit}
use perpetuals_carry_strateg.WalkForward.Decisions.{enter, held}
use perpetuals_carry_strateg.WalkForward.Reports.{is_given, record_market}

-- `try` with `except FundingModelUnavailable`
abbrev pub unless_unavailable : {A : Type 0} → Result A → Result (Option A)
unless_unavailable (ok a) = ok (some a)
unless_unavailable (err Error.funding_model_unavailable) = ok none
unless_unavailable (err raised) = err raised

-- `last is None or time - last <= SETTLEMENT_GUARD_MS`
abbrev pub within_guard : Option ℕ → ℕ → Bool
within_guard none time_ms = true
within_guard (some last) time_ms = leb (time_ms - last) settlement_guard_ms

module _ {D F Summary : Type 0} ⦃d : Number D⦄ ⦃n : Number F⦄ ⦃v : Conversions D F⦄ ⦃np : Numpy F⦄
    (env : Environment D F Summary) where
  -- The tests of `process` on a market event.
  unfoldable pub check_market : Runner D F → MarketEvent D F → Result (Unit {0})
  unfolding positive_decimal decimal
  check_market r event =
      let config = env.config in
      do
        raise_if (ltb event.time_ms config.start_ms) Error.value_error
        positive_decimal event.spot_mid
        positive_decimal event.perp_mid
        decimal event.financing_usdt
        raise_if
            (not (event.marks.time_ms == event.time_ms)
              || not (str_eq event.marks.symbol config.symbol))
            Error.value_error
        raise_if (event.decide && within_guard r.ledger.last_funding_ms event.time_ms)
            Error.value_error
        raise_if
            ((event.decide && not (event.time_ms == r.next_decision_ms))
              || (not event.decide && event.time_ms == r.next_decision_ms))
            Error.value_error
        ok tt

  abbrev pub remaining_of : Option (Position F) → ℕ
  remaining_of none = env.config.policy.horizon_settlements
  remaining_of (some p) = p.planned_settlements - p.settlements_held

  -- The forecast for the settlements that remain, where the model has one.
  unfoldable pub forecast_for : Runner D F → ℕ → ℕ → Result (Option (FundingForecast F))
  unfolding from_model
  forecast_for r time_ms remaining =
      let config = env.config in
      if ltb 0 remaining
      then unless_unavailable (
          from_model env.paths config.symbol env.model_sha256 r.model remaining time_ms config.draws
            (env.seed_of config.seed config.symbol time_ms))
      else ok none

module _ {D F Summary : Type 0} ⦃d : Number D⦄ ⦃n : Number F⦄ ⦃v : Conversions D F⦄
    ⦃rd : Rounding D⦄ ⦃np : Numpy F⦄ (env : Environment D F Summary) where
  -- What a decision leaves: the runner, the decision, the forecast and the size.
  abbrev pub Decided : Type 0
  Decided =
      Runner D F × (Option (Decision F) × (Option (FundingForecast F) × Option (SizingResult D F)))

  -- The decision on what is held, if anything.
  unfoldable pub decide_on :
      Runner D F
      → MarketEvent D F
      → Option (Position F)
      → Option (Opportunity D F)
      → Option (FundingForecast F)
      → Result Decided
  unfolding enter held
  decide_on r event none o forecast = do
    entry ← enter env r event o forecast
    ok (entry.0, (some entry.1.0, (forecast, entry.1.1)))
  decide_on r event (some p) o forecast = do
    verdict ← held env r event p o forecast (remaining_of env (some p))
    ok (verdict.0, (some verdict.1, (forecast, none)))

  -- The part of `process` under `if event.decide`.
  unfoldable pub decide_event : Runner D F → MarketEvent D F → Result Decided
  unfolding forecast_for admit decide_on
  decide_event r event = do
    forecast ← forecast_for env r event.time_ms (remaining_of env r.position)
    admitted ← admit env.config r event
    decide_on admitted.0 event r.position admitted.1 forecast

  -- What `process` does once a market event is financed and the equity is positive.
  unfoldable pub decided : Runner D F → MarketEvent D F → Result Decided
  unfolding decide_event
  decided r event = if event.decide then decide_event r event else ok (r, (none, (none, none)))

  -- The time of the next decision, after an event that decides or does not.
  abbrev pub next_decision : Bool → ℕ → ℕ
  next_decision decides time_ms = if decides then time_ms + interval_ms env.config else time_ms

  -- The end of `process` for a market event: the second valuation, and the record.
  unfoldable pub conclude_market :
      MarketEvent D F → Decided → Result (Runner D F × Option (Record D F Summary))
  unfolding value reserve admit record_market
  conclude_market event (r, (decision, (forecast, result))) = do
    valuation ← value r.ledger event.marks
    reserve env.config r.ledger event.marks.perp
    let scheduled : Runner D F = record r {
      next_decision_ms = next_decision event.decide r.next_decision_ms;
    }
    admitted ← admit env.config scheduled event
    ok (
      admitted.0,
      some (
          record_market env admitted.0 event decision valuation forecast result
            (is_given admitted.1)),
    )

  -- The market branch of `process`.
  unfoldable pub process_market :
      Runner D F → MarketEvent D F → Result (Runner D F × Option (Record D F Summary))
  unfolding check_market finance value reserve decided conclude_market
  process_market r event = do
    check_market env r event
    ledger ← finance r.ledger (joined event.event_id ":finance") event.time_ms event.financing_usdt
    valuation ← value ledger event.marks
    reserve env.config ledger event.marks.perp
    raise_if (valuation.net_equity_usdt ≼ nought) Error.execution_unavailable
    outcome ← decided (record r { ledger = ledger }) event
    conclude_market event outcome
