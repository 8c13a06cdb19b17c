-- ===== src/Accounting/Fills.antt =====
-- `Ledger.fill`.
use perpetuals_carry_strateg.Base.{◌-◌, Bool, ◌&&◌, ◌||◌, leb}
use perpetuals_carry_strateg.Base.Result.{Result, ok, Error, raise_if, ◌>>◌, ◌>>=◌}
use perpetuals_carry_strateg.Number.{Number, ◌⊕◌, ◌⊖◌, ◌⊗◌, ◌≺◌, ◌≗◌, negate, nought, absolute}
use perpetuals_carry_strateg.Checks.{decimal, positive_decimal}
use perpetuals_carry_strateg.Fees.{Market, market_eq, quote}
use perpetuals_carry_strateg.Accounting.Leg.{Leg, trade}
use perpetuals_carry_strateg.Accounting.State.{
  settlement_guard_ms, Fill, Ledger, with_id, just_settled, check_event, leg_of, with_leg,
}

module _ {D : Type 0} ⦃n : Number D⦄ where
  -- The guards of `Ledger.fill` that stand before the trade.
  unfoldable pub check_fill : Ledger D → Fill D → Result (Unit {0})
  unfolding check_event decimal positive_decimal
  check_fill l event = do
    check_event l event.event_id event.symbol event.time_ms
    decimal event.quantity
    positive_decimal event.price
    positive_decimal event.reference_mid
    raise_if (event.quantity ≗ nought) Error.value_error
    raise_if (leb l.next_funding_ms event.time_ms) Error.value_error
    raise_if
        (market_eq event.market Market.perp
          && (leb (l.next_funding_ms - event.time_ms) settlement_guard_ms
              || just_settled l.last_funding_ms event.time_ms))
        Error.value_error
    ok tt

  abbrev pub traded : Market → Ledger D → Fill D → Leg D × D
  traded market l event = trade (leg_of l market) event.quantity event.price

  -- Whether the leg that a fill leads to is on the wrong side of the carry.
  abbrev pub reverses : Market → D → Bool
  reverses Market.spot quantity = quantity ≺ nought
  reverses Market.perp quantity = nought ≺ quantity

  abbrev pub fee_of : Fill D → D → D
  fee_of event rate = absolute event.quantity ⊗ event.price ⊗ rate

  -- A spot fill is paid for; a fill of the perpetual moves what it realizes.
  abbrev pub cash_change : Market → D → D → D → D
  cash_change Market.spot quantity price realized = negate quantity ⊗ price
  cash_change Market.perp quantity price realized = realized

  -- The ledger that `Ledger.fill` returns for a fill of the market, given the fee's rate.
  unfoldable pub filled_on : Market → Ledger D → Fill D → D → Ledger D
  unfolding trade
  filled_on market l event rate =
      let (updated, realized) = traded market l event in
      let fee = fee_of event rate in
      let l' = with_leg l market updated in
      record l' {
        cash_usdt = l.cash_usdt ⊕ cash_change market event.quantity event.price realized ⊖ fee;
        fees_usdt = l.fees_usdt ⊕ fee;
        execution_cost_usdt =
            l.execution_cost_usdt ⊕ event.quantity ⊗ (event.price ⊖ event.reference_mid);
        time_ms = event.time_ms;
        event_ids = with_id l.event_ids event.event_id;
      }

  abbrev pub filled : Ledger D → Fill D → D → Ledger D
  filled l event = filled_on event.market l event

  unfoldable pub fill : Ledger D → Fill D → Result (Ledger D)
  unfolding check_fill filled_on
  fill l event = do
    check_fill l event
    raise_if (reverses event.market (traded event.market l event).0.quantity) Error.value_error
    rate ← quote l.fees l.symbol event.market event.time_ms
    ok (filled l event rate)
