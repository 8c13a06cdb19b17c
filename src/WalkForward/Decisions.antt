-- ===== src/WalkForward/Decisions.antt =====
-- `_Runner.enter` and `_Runner.held`.
use perpetuals_carry_strateg.Base.{ℕ, Bool, true, false, Option, none, some, ltb, if◌then◌else◌}
use perpetuals_carry_strateg.Base.Result.{Result, ok, err, Error, ◌>>=◌}
use perpetuals_carry_strateg.Number.{
  Number, Conversions, ◌⊕◌, ◌⊖◌, ◌⊗◌, ◌⊘◌, ◌≼◌, nought, one, negate, number_of, square_root,
  maximum, minimum,
}
use perpetuals_carry_strateg.Fees.{Market, quote}
use perpetuals_carry_strateg.Accounting.State.{Ledger}
use perpetuals_carry_strateg.Carry.Types.{
  Numpy, Position, FundingForecast, FundingApproval, CostEstimate, check_position,
}
use perpetuals_carry_strateg.Carry.Decide.{Action, Reason, Decision, plain, decide}
use perpetuals_carry_strateg.Costs.{ExecutionCharges, from_curve}
use perpetuals_carry_strateg.Sizing.{SizingInputs, SizingResult, check_inputs}
use perpetuals_carry_strateg.Sizing.Market.{Rounding, is_enter}
use perpetuals_carry_strateg.Sizing.Position.{size_position}
use perpetuals_carry_strateg.Execution.{Opportunity, MarketEvent}
use perpetuals_carry_strateg.WalkForward.{Config, Environment, Runner, strategy_of}
use perpetuals_carry_strateg.WalkForward.Trading.{charges, trade}

abbrev pub is_exit : Action → Bool
is_exit Action.exit = true
is_exit _ = false

-- `try` with `except ImpactModelError`
abbrev pub unless_impact_error : {A : Type 0} → Result A → Result (Option A)
unless_impact_error (ok a) = ok (some a)
unless_impact_error (err Error.impact_model_error) = ok none
unless_impact_error (err raised) = err raised

module _ {D F : Type 0} ⦃d : Number D⦄ ⦃n : Number F⦄ ⦃v : Conversions D F⦄ where
  -- The worst impact that the curve supports, with the half spread.
  abbrev pub worst_impact : Opportunity D F → D
  worst_impact o =
      v.to_decimal
        (o.curve.sell_coefficient_bps ⊗ square_root o.curve.size_max ⊕ o.perp_half_spread_bps)
      ⊘ number_of 10_000

  -- What a unit takes of the cash: the spot with its fee, the collateral and the adverse entry.
  unfoldable pub per_unit : Config D F → MarketEvent D F → Opportunity D F → D → D → D
  per_unit config event o spot_fee perp_fee =
      event.spot_mid
        ⊗ (one ⊕ v.to_decimal o.spot_execution_bps ⊘ number_of 10_000)
        ⊗ (one ⊕ spot_fee)
      ⊕ event.marks.perp ⊗ config.collateral_fraction
      ⊕ maximum nought (event.marks.perp ⊖ event.perp_mid)
      ⊕ event.perp_mid ⊗ (worst_impact o ⊕ perp_fee)

  -- The notional that the cash allows.
  unfoldable pub capital_limit : Ledger D → MarketEvent D F → D → D
  capital_limit l event unit = maximum nought l.cash_usdt ⊘ unit ⊗ event.perp_mid

  -- `replace(opportunity.market, max_notional_usdt=...)`
  unfoldable pub limited_market : Opportunity D F → D → Result (SizingInputs D F)
  unfolding check_inputs
  limited_market o cap =
      check_inputs (record o.market {
        max_notional_usdt = minimum o.market.max_notional_usdt (v.to_float cap);
      })

  -- The position that an entry opens.
  unfoldable pub opened : Config D F → MarketEvent D F → D → Result (Position F)
  unfolding check_position
  opened config event quantity = check_position (record {
    symbol = config.symbol;
    notional_usdt = v.to_float (quantity ⊗ event.perp_mid);
    opened_at_ms = event.time_ms;
    planned_settlements = config.policy.horizon_settlements;
    settlements_held = 0;
    interval_hours = config.interval_hours;
  })

module _ {D F Summary : Type 0} ⦃d : Number D⦄ ⦃n : Number F⦄ ⦃v : Conversions D F⦄ ⦃r : Rounding D⦄
    ⦃np : Numpy F⦄ (env : Environment D F Summary) where
  -- What `enter` and its caller go on with.
  abbrev pub Entry : Type 0
  Entry = Runner D F × (Decision F × Option (SizingResult D F))

  -- The attempt to trade a size that the sizing enters.
  unfoldable pub open_position : Runner D F → MarketEvent D F → SizingResult D F → Result Entry
  unfolding trade opened
  open_position run event result = do
    attempt ← trade env run event result.quantity_base true
    if attempt.1
        then (opened env.config event result.quantity_base >>= λ p.
            ok (record attempt.0 { position = some p }, (result.decision, some result)))
        else ok (attempt.0, (plain Action.wait Reason.actual_fill_capital_unavailable, some result))

  -- `enter` with an opportunity, from the capital that it may use on.
  unfoldable pub enter_within :
      Runner D F
      → MarketEvent D F
      → Opportunity D F
      → Option (FundingForecast F)
      → ExecutionCharges F
      → D
      → Result Entry
  unfolding limited_market size_position open_position
  enter_within run event o forecast costs cap =
      if cap ≼ nought
      then ok (run, (plain Action.wait Reason.capital_unavailable, none))
      else (limited_market o cap >>= λ market.
          size_position (record {
            strategy = strategy_of env.config;
            now_ms = event.time_ms;
            forecast = forecast;
            approval = o.approval;
            market = market;
            curve = o.curve;
            charges = costs;
          })
          >>= λ result.
              if is_enter result.decision.action
              then open_position run event result
              else ok (run, (result.decision, some result)))

  -- `enter`
  unfoldable pub enter :
      Runner D F
      → MarketEvent D F
      → Option (Opportunity D F)
      → Option (FundingForecast F)
      → Result Entry
  unfolding charges per_unit capital_limit enter_within
  enter run event none forecast =
      ok (run, (plain Action.wait Reason.market_evidence_unavailable, none))
  enter run event (some o) forecast = do
    costs ← charges env.config env.fees event o
    spot_fee ← quote env.fees env.config.symbol Market.spot event.time_ms
    perp_fee ← quote env.fees env.config.symbol Market.perp event.time_ms
    let unit = per_unit env.config event o spot_fee perp_fee
    enter_within run event o forecast costs (capital_limit run.ledger event unit)

module _ {D F Summary : Type 0} ⦃d : Number D⦄ ⦃n : Number F⦄ ⦃v : Conversions D F⦄ ⦃np : Numpy F⦄
    (env : Environment D F Summary) where
  -- The estimate of what a held quantity costs to close.
  unfoldable pub held_estimate :
      MarketEvent D F
      → Option (Opportunity D F)
      → Position F
      → D
      → ℕ
      → Result (Option (CostEstimate F))
  unfolding charges from_curve
  held_estimate event none position quantity remaining = ok none
  held_estimate event (some o) position quantity remaining =
      if ltb 0 remaining
      then unless_impact_error (
          charges env.config env.fees event o >>= λ costs.
          from_curve o.curve event.time_ms o.market.valid_until_ms position.notional_usdt
            (v.to_float (quantity ⊘ v.to_decimal o.market.adv_base)) remaining costs)
      else ok none

  abbrev pub approval_of : Option (Opportunity D F) → Option FundingApproval
  approval_of none = none
  approval_of (some o) = o.approval

  -- The runner after the decision on a held quantity.
  unfoldable pub close_on : Runner D F → MarketEvent D F → D → Decision F → Result (Runner D F)
  unfolding trade
  close_on run event quantity decision =
      if is_exit decision.action
      then (trade env run event quantity false >>= λ sold. ok (record sold.0 { position = none }))
      else ok run

  -- `held`
  unfoldable pub held :
      Runner D F
      → MarketEvent D F
      → Position F
      → Option (Opportunity D F)
      → Option (FundingForecast F)
      → ℕ
      → Result (Runner D F × Decision F)
  unfolding check_position held_estimate decide close_on
  held run event position o forecast remaining =
      let quantity = negate run.ledger.perp.quantity in
      do
        valued ←
            check_position
              (record position { notional_usdt = v.to_float (quantity ⊗ event.perp_mid) })
        estimate ← held_estimate event o valued quantity remaining
        decision ←
            decide (strategy_of env.config) event.time_ms forecast estimate (approval_of o)
              (some valued)
        run' ← close_on run event quantity decision
        ok (run', decision)
