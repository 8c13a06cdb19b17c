-- ===== src/Accounting/Balance.antt =====
-- A valuation against the accounts: `Ledger.value` after any history.
use mathlib.Core.Path.{subst₂}
use perpetuals_carry_strateg.Base.{ℕ, String, List, [], ◌∷◌, ◌≡◌, refl, sym, ◌∙◌}
use perpetuals_carry_strateg.Base.Result.{ok, >>-eq-ok, ok_injective}
use perpetuals_carry_strateg.Number.{Number, ◌⊕◌, ◌⊖◌, ◌⊗◌}
use perpetuals_carry_strateg.Number.Laws.{IsExact}
use perpetuals_carry_strateg.Number.Linear.{Sum, at, plus, minus, linear, by_cancel}
use perpetuals_carry_strateg.Fees.{FeeSchedule}
use perpetuals_carry_strateg.Accounting.Leg.{unrealized}
use perpetuals_carry_strateg.Accounting.State.{Ledger, Marks, Valuation, start}
use perpetuals_carry_strateg.Accounting.Valuing.{check_marks, valued, value}
use perpetuals_carry_strateg.Accounting.Steps.{History, History-capital, start-capital}
use perpetuals_carry_strateg.Accounting.Cash.{
  Reconciles, IsExactHistory, start-Reconciles, History-Reconciles,
}

abbrev price_pnl : Sum
price_pnl = plus (plus (plus (at 5) (minus (at 8) (at 1))) (at 6)) (at 9)

abbrev net_equity : Sum
net_equity = plus (plus (at 0) (at 8)) (at 9)

abbrev spent : Sum
spent = plus (plus (plus (at 0) (at 1)) (at 2)) (at 3)

abbrev earned : Sum
earned = plus (plus (plus (at 4) (at 5)) (at 6)) (at 7)

module _ {D : Type 0} ⦃n : Number D⦄ where
  -- The net profit is the price profit and the funding less fees and financing; the gross profit is
  -- above it by fees, financing and execution costs; either equity is the capital and that profit.
  pub record Balances (capital : D) (v : Valuation D) : Type 0 where
    pub net : v.net_pnl_usdt ≡ v.price_pnl_usdt ⊕ v.funding_usdt ⊖ v.fees_usdt ⊖ v.financing_usdt
    pub gross :
        v.gross_pnl_usdt ≡ v.net_pnl_usdt ⊕ (v.fees_usdt ⊕ v.financing_usdt ⊕ v.execution_cost_usdt)
    pub net_equity : v.net_equity_usdt ≡ capital ⊕ v.net_pnl_usdt
    pub gross_equity : v.gross_equity_usdt ≡ capital ⊕ v.gross_pnl_usdt

  module _ (exact : IsExact D) where
    valued-Balances :
        (l : Ledger D) (marks : Marks D)
        → Reconciles l
        → Balances l.initial_capital_usdt (valued l marks)
    unfolding valued
    valued-Balances l marks h = record {
      net = by_cancel exact _ _ h (
          linear exact items (plus (minus net_equity (at 4)) earned)
            (plus (minus (minus (plus price_pnl (at 7)) (at 2)) (at 3)) spent) refl);
      gross = by_cancel exact _ _ h' (
          linear exact items (plus (plus (plus price_pnl (at 7)) (at 10)) spent)
            (plus (plus (minus net_equity (at 4)) (plus (plus (at 2) (at 3)) (at 10))) earned)
            refl);
      net_equity = linear exact items net_equity (plus (at 4) (minus net_equity (at 4))) refl;
      gross_equity = refl;
    }
      where
        items : List D
        items =
            l.cash_usdt
            ∷ l.spot.basis_usdt
            ∷ l.fees_usdt
            ∷ l.financing_usdt
            ∷ l.initial_capital_usdt
            ∷ l.spot.realized_usdt
            ∷ l.perp.realized_usdt
            ∷ l.funding_usdt
            ∷ l.spot.quantity ⊗ marks.spot
            ∷ unrealized l.perp marks.perp
            ∷ l.execution_cost_usdt
            ∷ []

        h' :
            l.initial_capital_usdt ⊕ l.spot.realized_usdt ⊕ l.perp.realized_usdt ⊕ l.funding_usdt
            ≡ l.cash_usdt ⊕ l.spot.basis_usdt ⊕ l.fees_usdt ⊕ l.financing_usdt
        h' = sym h

    -- With exact sums and products, and an exact average cost at every fill that reduces a leg, every
    -- valuation of a ledger that events led to from its start balances: the net profit is that of the
    -- prices with the funding, less the fees and the financing.
    pub value-Balances :
        (symbol : String) (capital : D) (next : ℕ) (fees : FeeSchedule D) {first l : Ledger D}
        (marks : Marks D) {v : Valuation D}
        → start symbol capital next fees ≡ ok first
        → (h : History first l) → IsExactHistory h
        → value l marks ≡ ok v
        → Balances capital v
    unfolding value
    value-Balances symbol capital next fees {l = l} marks started h exact_at accepted =
        let r =
          History-Reconciles exact h exact_at
            (start-Reconciles exact symbol capital next fees started) in
        let (_, same) = >>-eq-ok (check_marks l marks) _ accepted in
        subst₂ Balances (History-capital h ∙ start-capital symbol capital next fees started)
          (ok_injective same) (valued-Balances l marks r)
