-- ===== src/Accounting/Sides.antt =====
-- The sides of a carry: spot is held long and the perpetual short.
use mathlib.Core.Path.{subst}
use perpetuals_carry_strateg.Base.{ℕ, String, false, ◌≡◌}
use perpetuals_carry_strateg.Base.Result.{ok}
use perpetuals_carry_strateg.Number.{Number, ◌≺◌, nought}
use perpetuals_carry_strateg.Number.Laws.{IsOrdered}
use perpetuals_carry_strateg.Fees.{Market, FeeSchedule}
use perpetuals_carry_strateg.Accounting.State.{Ledger, Fill, start}
use perpetuals_carry_strateg.Accounting.Fills.{traded, reverses, filled_on}
use perpetuals_carry_strateg.Accounting.Payments.{settled, financed}
use perpetuals_carry_strateg.Accounting.Steps.{
  Event, apply, History, begun, after, fill-eq-ok, settle-eq-ok, finance-eq-ok, start-eq-ok,
}

module _ {D : Type 0} ⦃n : Number D⦄ where
  pub record IsCarry (l : Ledger D) : Type 0 where
    pub spot_not_short : (l.spot.quantity ≺ nought) ≡ false
    pub perp_not_long : (nought ≺ l.perp.quantity) ≡ false

  filled_on-IsCarry :
      (m : Market) (l : Ledger D) (e : Fill D) (rate : D)
      → reverses m (traded m l e).0.quantity ≡ false
      → IsCarry l
      → IsCarry (filled_on m l e rate)
  unfolding filled_on
  filled_on-IsCarry Market.spot l e rate kept c = record {
    spot_not_short = kept;
    perp_not_long = c.perp_not_long;
  }
  filled_on-IsCarry Market.perp l e rate kept c = record {
    spot_not_short = c.spot_not_short;
    perp_not_long = kept;
  }

  apply-IsCarry :
      (l : Ledger D) (e : Event D) {l' : Ledger D} → apply l e ≡ ok l' → IsCarry l → IsCarry l'
  unfolding apply settled financed
  apply-IsCarry l (Event.trade_filled e) h c =
      let (rate, _, kept, _, same) = fill-eq-ok l e h in
      subst IsCarry same (filled_on-IsCarry e.market l e rate kept c)
  apply-IsCarry l (Event.funding_settled e) h c =
      let (mark, _, same) = settle-eq-ok l e h in
      subst IsCarry same
        (record { spot_not_short = c.spot_not_short; perp_not_long = c.perp_not_long })
  apply-IsCarry l (Event.cost_financed id t cost) h c =
      let (_, same) = finance-eq-ok l id t cost h in
      subst IsCarry same
        (record { spot_not_short = c.spot_not_short; perp_not_long = c.perp_not_long })

  -- No history of events from a start turns the spot leg short or the perpetual leg long.
  pub History-IsCarry :
      IsOrdered D
      → (symbol : String) (capital : D) (next : ℕ) (fees : FeeSchedule D) {first l : Ledger D}
      → start symbol capital next fees ≡ ok first
      → History first l
      → IsCarry l
  History-IsCarry ordered symbol capital next fees s begun =
      let level = ordered.lt_irrefl nought in
      subst IsCarry (start-eq-ok symbol capital next fees s).1
        (record { spot_not_short = level; perp_not_long = level })
  History-IsCarry ordered symbol capital next fees s (after e h accepted) =
      apply-IsCarry _ e accepted (History-IsCarry ordered symbol capital next fees s h)
