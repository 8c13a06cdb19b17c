-- ===== src/Accounting/Payments.antt =====
-- `Ledger.settle` and `Ledger.finance`.
use perpetuals_carry_strateg.Base.{ℕ, ◌+◌, ◌*◌, String, not, ◌&&◌, ◌||◌, some, leb, ◌==◌}
use perpetuals_carry_strateg.Base.Result.{Result, ok, Error, raise_if, ◌>>◌, ◌>>=◌}
use perpetuals_carry_strateg.Number.{Number, ◌⊕◌, ◌⊖◌, ◌⊗◌, ◌≺◌, negate, nought}
use perpetuals_carry_strateg.Checks.{decimal, positive_decimal}
use perpetuals_carry_strateg.Accounting.State.{
  hour_ms, FundingSettlement, Ledger, with_id, check_event, given,
}

module _ {D : Type 0} ⦃n : Number D⦄ where
  unfoldable pub check_settle : Ledger D → FundingSettlement D → Result D
  unfolding check_event decimal positive_decimal
  check_settle l event = do
    check_event l event.event_id event.symbol event.time_ms
    decimal event.rate
    mark ← given event.mark_price
    positive_decimal mark
    raise_if
        (not (event.time_ms == l.next_funding_ms)
          || not (leb 1 event.interval_hours && leb event.interval_hours 24))
        Error.value_error
    ok mark

  -- What the short position is paid.
  abbrev pub payment_of : Ledger D → D → D → D
  payment_of l mark rate = negate l.perp.quantity ⊗ mark ⊗ rate

  unfoldable pub settled : Ledger D → FundingSettlement D → D → Ledger D
  settled l event mark =
      let payment = payment_of l mark event.rate in
      record l {
        cash_usdt = l.cash_usdt ⊕ payment;
        funding_usdt = l.funding_usdt ⊕ payment;
        next_funding_ms = event.time_ms + event.interval_hours * hour_ms;
        last_funding_ms = some event.time_ms;
        time_ms = event.time_ms;
        event_ids = with_id l.event_ids event.event_id;
      }

  unfoldable pub settle : Ledger D → FundingSettlement D → Result (Ledger D)
  unfolding check_settle settled
  settle l event = do mark ← check_settle l event; ok (settled l event mark)

  unfoldable pub check_finance : Ledger D → String → ℕ → D → Result (Unit {0})
  unfolding check_event decimal
  check_finance l event_id time_ms cost_usdt = do
    check_event l event_id l.symbol time_ms
    decimal cost_usdt
    raise_if (cost_usdt ≺ nought || leb l.next_funding_ms time_ms) Error.value_error
    ok tt

  unfoldable pub financed : Ledger D → String → ℕ → D → Ledger D
  financed l event_id time_ms cost_usdt = record l {
    cash_usdt = l.cash_usdt ⊖ cost_usdt;
    financing_usdt = l.financing_usdt ⊕ cost_usdt;
    time_ms = time_ms;
    event_ids = with_id l.event_ids event_id;
  }

  unfoldable pub finance : Ledger D → String → ℕ → D → Result (Ledger D)
  unfolding check_finance financed
  finance l event_id time_ms cost_usdt = do
    check_finance l event_id time_ms cost_usdt
    ok (financed l event_id time_ms cost_usdt)
