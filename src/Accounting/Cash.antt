-- ===== src/Accounting/Cash.antt =====
-- Where the cash of a ledger comes from. The proofs assume exact sums and products, and of the one
-- quotient of the code, a leg's average cost, that it is exact at the fill in question.
use mathlib.Core.Path.{ap₂, subst}
use perpetuals_carry_strateg.Base.{
  ℕ, String, true, inl, inr, List, [], ◌∷◌, ◌++◌, ◌≡◌, refl, sym, ◌∙◌, Bool-cases,
}
use perpetuals_carry_strateg.Base.Result.{ok, >>-eq-ok, raise_if-eq-ok, ok_injective}
use perpetuals_carry_strateg.Number.{Number, ◌⊕◌, ◌⊖◌, ◌⊗◌, negate, nought}
use perpetuals_carry_strateg.Number.Laws.{IsExact}
use perpetuals_carry_strateg.Number.Linear.{Sum, at, plus, minus, opposite, linear, by_cancel}
use perpetuals_carry_strateg.Number.Products.{mul-sub, negate-mul, add-mul}
use perpetuals_carry_strateg.Fees.{Market, FeeSchedule}
use perpetuals_carry_strateg.Accounting.Leg.{Leg, closes, average, realized_by, basis_after}
use perpetuals_carry_strateg.Accounting.State.{start, Ledger, Fill, FundingSettlement, leg_of}
use perpetuals_carry_strateg.Accounting.Fills.{fee_of, filled_on}
use perpetuals_carry_strateg.Checks.{positive_decimal, timestamp}
use perpetuals_carry_strateg.Accounting.Steps.{
  Event, apply, History, begun, after, fill-eq-ok, settle-eq-ok, finance-eq-ok,
}
use perpetuals_carry_strateg.Accounting.Payments.{payment_of, settled, financed}

abbrev spent : Sum → Sum → Sum → Sum → Sum
spent cash basis fees financing = plus (plus (plus cash basis) fees) financing

abbrev earned : Sum → Sum → Sum → Sum → Sum
earned = spent

module _ {D : Type 0} ⦃n : Number D⦄ where
  -- The average cost, where a trade needs it, is the exact quotient.
  abbrev pub HasExactAverage : Leg D → D → Type 0
  HasExactAverage leg quantity =
      closes leg quantity ≡ true → leg.quantity ⊗ average leg ≡ leg.basis_usdt

  abbrev pub IsExactAt : Ledger D → Event D → Type 0
  IsExactAt l (Event.trade_filled e) = HasExactAverage (leg_of l e.market) e.quantity
  IsExactAt l _ = Unit {0}

  -- It is so at every fill of a history.
  abbrev pub IsExactHistory : {first l : Ledger D} → History first l → Type 0
  IsExactHistory begun = Unit {0}
  IsExactHistory (after {l = l} e h accepted) = IsExactHistory h × IsExactAt l e

  -- Cash, the cost of the coins held and what was spent on fees and financing come to the capital,
  -- the profits realized and the funding received.
  abbrev pub Reconciles : Ledger D → Type 0
  Reconciles l =
      l.cash_usdt ⊕ l.spot.basis_usdt ⊕ l.fees_usdt ⊕ l.financing_usdt
      ≡ l.initial_capital_usdt ⊕ l.spot.realized_usdt ⊕ l.perp.realized_usdt ⊕ l.funding_usdt

  -- The eight accounts of the equation, in its order.
  abbrev accounts : Ledger D → List D
  accounts l =
      l.cash_usdt ∷ l.spot.basis_usdt ∷ l.fees_usdt ∷ l.financing_usdt ∷ l.initial_capital_usdt
      ∷ l.spot.realized_usdt ∷ l.perp.realized_usdt ∷ l.funding_usdt ∷ []

  module _ (exact : IsExact D) where
    open exact use {add-nought}

    -- The cost basis and the money paid account for what a trade realizes.
    trade-basis :
        (leg : Leg D) (q p : D)
        → HasExactAverage leg q
        → basis_after leg q p ⊕ negate q ⊗ p ≡ leg.basis_usdt ⊕ realized_by leg q p
    unfolding basis_after realized_by
    trade-basis leg q p average_exact = elim (Bool-cases (closes leg q)) [
      | inl closing ↦
          rw
            (
              closing,
              add-mul exact leg.quantity q (average leg),
              average_exact closing,
              negate-mul exact q p,
              negate-mul exact q (p ⊖ average leg),
              mul-sub exact q p (average leg),
            )
            (linear exact (leg.basis_usdt ∷ q ⊗ average leg ∷ q ⊗ p ∷ [])
              (plus (plus (at 0) (at 1)) (opposite (at 2)))
              (plus (at 0) (opposite (minus (at 2) (at 1)))) refl)
      | inr opening ↦
          rw (opening, negate-mul exact q p)
            (linear exact (leg.basis_usdt ∷ q ⊗ p ∷ nought ∷ [])
                (plus (plus (at 0) (at 1)) (opposite (at 1))) (at 0) refl
              ∙ sym (add-nought leg.basis_usdt))
    ]

    filled_on-Reconciles :
        (m : Market) (l : Ledger D) (e : Fill D) (rate : D)
        → HasExactAverage (leg_of l m) e.quantity
        → Reconciles l
        → Reconciles (filled_on m l e rate)
    unfolding filled_on
    filled_on-Reconciles Market.spot l e rate average_exact h =
        by_cancel exact _ _ (ap₂ ◌⊕◌ h (trade-basis l.spot e.quantity e.price average_exact)) (
          linear exact
            (accounts l
              ++ fee_of e rate
                ∷ realized_by l.spot e.quantity e.price
                ∷ basis_after l.spot e.quantity e.price
                ∷ negate e.quantity ⊗ e.price
                ∷ [])
            (plus (spent (minus (plus (at 0) (at 11)) (at 8)) (at 10) (plus (at 2) (at 8)) (at 3))
              (plus (earned (at 4) (at 5) (at 6) (at 7)) (plus (at 1) (at 9))))
            (plus (earned (at 4) (plus (at 5) (at 9)) (at 6) (at 7))
              (plus (spent (at 0) (at 1) (at 2) (at 3)) (plus (at 10) (at 11))))
            refl)
    filled_on-Reconciles Market.perp l e rate average_exact h = by_cancel exact _ _ h (
        linear exact (accounts l ++ fee_of e rate ∷ realized_by l.perp e.quantity e.price ∷ [])
          (plus (spent (minus (plus (at 0) (at 9)) (at 8)) (at 1) (plus (at 2) (at 8)) (at 3))
            (earned (at 4) (at 5) (at 6) (at 7)))
          (plus (earned (at 4) (at 5) (plus (at 6) (at 9)) (at 7))
            (spent (at 0) (at 1) (at 2) (at 3)))
          refl)

    settled-Reconciles :
        (l : Ledger D) (e : FundingSettlement D) (mark : D)
        → Reconciles l
        → Reconciles (settled l e mark)
    unfolding settled
    settled-Reconciles l e mark h = by_cancel exact _ _ h (
        linear exact (accounts l ++ payment_of l mark e.rate ∷ [])
          (plus (spent (plus (at 0) (at 8)) (at 1) (at 2) (at 3))
            (earned (at 4) (at 5) (at 6) (at 7)))
          (plus (earned (at 4) (at 5) (at 6) (plus (at 7) (at 8)))
            (spent (at 0) (at 1) (at 2) (at 3)))
          refl)

    financed-Reconciles :
        (l : Ledger D) (id : String) (t : ℕ) (cost : D)
        → Reconciles l
        → Reconciles (financed l id t cost)
    unfolding financed
    financed-Reconciles l id t cost h = by_cancel exact _ _ h (
        linear exact (accounts l ++ cost ∷ [])
          (plus (spent (minus (at 0) (at 8)) (at 1) (at 2) (plus (at 3) (at 8)))
            (earned (at 4) (at 5) (at 6) (at 7)))
          (plus (earned (at 4) (at 5) (at 6) (at 7)) (spent (at 0) (at 1) (at 2) (at 3))) refl)

    apply-Reconciles :
        (l : Ledger D) (e : Event D) {l' : Ledger D}
        → apply l e ≡ ok l'
        → IsExactAt l e
        → Reconciles l
        → Reconciles l'
    unfolding apply
    apply-Reconciles l (Event.trade_filled e) h average_exact r =
        let (rate, _, _, _, same) = fill-eq-ok l e h in
        subst Reconciles same (filled_on-Reconciles e.market l e rate average_exact r)
    apply-Reconciles l (Event.funding_settled e) h _ r =
        let (mark, _, same) = settle-eq-ok l e h in
        subst Reconciles same (settled-Reconciles l e mark r)
    apply-Reconciles l (Event.cost_financed id t cost) h _ r =
        let (_, same) = finance-eq-ok l id t cost h in
        subst Reconciles same (financed-Reconciles l id t cost r)

    pub start-Reconciles :
        (symbol : String) (capital : D) (next : ℕ) (fees : FeeSchedule D) {l : Ledger D}
        → start symbol capital next fees ≡ ok l
        → Reconciles l
    unfolding start
    start-Reconciles symbol capital next fees h =
        let (_, rest) = >>-eq-ok (positive_decimal capital) _ h in
        let (_, rest') = >>-eq-ok (timestamp next) _ rest in
        subst Reconciles (ok_injective (raise_if-eq-ok _ _ _ rest').1) refl

    pub History-Reconciles :
        {first l : Ledger D} (h : History first l)
        → IsExactHistory h
        → Reconciles first
        → Reconciles l
    History-Reconciles begun _ r = r
    History-Reconciles (after e h accepted) (before, at_e) r =
        apply-Reconciles _ e accepted at_e (History-Reconciles h before r)
