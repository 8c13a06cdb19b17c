-- ===== src/Accounting/Valuing.antt =====
-- `Ledger.value`.
use perpetuals_carry_strateg.Base.{not, ◌||◌, ltb, leb}
use perpetuals_carry_strateg.Base.Text.{str_eq}
use perpetuals_carry_strateg.Base.Result.{Result, ok, Error, raise_if, ◌>>◌}
use perpetuals_carry_strateg.Number.{Number, ◌⊕◌, ◌⊖◌, ◌⊗◌}
use perpetuals_carry_strateg.Checks.{positive_decimal, timestamp}
use perpetuals_carry_strateg.Accounting.Leg.{unrealized}
use perpetuals_carry_strateg.Accounting.State.{Marks, Valuation, Ledger}

module _ {D : Type 0} ⦃n : Number D⦄ where
  unfoldable pub check_marks : Ledger D → Marks D → Result (Unit {0})
  unfolding timestamp positive_decimal
  check_marks l marks = do
    timestamp marks.time_ms
    positive_decimal marks.spot
    positive_decimal marks.perp
    raise_if
        (not (str_eq marks.symbol l.symbol)
          || (ltb marks.time_ms l.time_ms || leb l.next_funding_ms marks.time_ms))
        Error.value_error
    ok tt

  unfoldable pub valued : Ledger D → Marks D → Valuation D
  unfolding unrealized
  valued l marks =
      let price_pnl =
        l.spot.realized_usdt
        ⊕ unrealized l.spot marks.spot
        ⊕ l.perp.realized_usdt
        ⊕ unrealized l.perp marks.perp in
      let equity = l.cash_usdt ⊕ l.spot.quantity ⊗ marks.spot ⊕ unrealized l.perp marks.perp in
      let net = equity ⊖ l.initial_capital_usdt in
      let gross = price_pnl ⊕ l.funding_usdt ⊕ l.execution_cost_usdt in
      record {
        time_ms = marks.time_ms;
        cash_usdt = l.cash_usdt;
        spot_quantity = l.spot.quantity;
        perp_quantity = l.perp.quantity;
        price_pnl_usdt = price_pnl;
        funding_usdt = l.funding_usdt;
        fees_usdt = l.fees_usdt;
        financing_usdt = l.financing_usdt;
        execution_cost_usdt = l.execution_cost_usdt;
        gross_pnl_usdt = gross;
        net_pnl_usdt = net;
        gross_equity_usdt = l.initial_capital_usdt ⊕ gross;
        net_equity_usdt = equity;
      }

  -- `Ledger.value`
  unfoldable pub value : Ledger D → Marks D → Result (Valuation D)
  unfolding check_marks valued
  value l marks = do check_marks l marks; ok (valued l marks)
