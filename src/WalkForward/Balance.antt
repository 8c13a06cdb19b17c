-- ===== src/WalkForward/Balance.antt =====
-- The legs of a run: their sum, and the perpetual where no position is held.
use mathlib.Core.Path.{subst, ap₂}
use perpetuals_carry_strateg.Base.{Bool, true, false, not, ◌≡◌, refl, sym, ap, ◌∙◌, arith, or_false}
use perpetuals_carry_strateg.Base.Result.{ok}
use perpetuals_carry_strateg.Number.{Number, Conversions, ◌⊕◌, ◌≗◌, negate, nought}
use perpetuals_carry_strateg.Number.Laws.{IsExact}
use perpetuals_carry_strateg.Fees.{Market, market_eq}
use perpetuals_carry_strateg.Accounting.State.{Fill, Ledger}
use perpetuals_carry_strateg.Accounting.Fills.{fill, filled_on}
use perpetuals_carry_strateg.Accounting.Steps.{fill-eq-ok}
use perpetuals_carry_strateg.Execution.{MarketEvent}
use perpetuals_carry_strateg.WalkForward.{Config}
use perpetuals_carry_strateg.WalkForward.Trading.{unexpected, spot_amount, perp_amount}
use perpetuals_carry_strateg.WalkForward.Booked.{IsBooked}

-- The quantities after a fill of a market.
abbrev IsFilled : {D : Type 0} ⦃d : Number D⦄ → Market → Ledger D → D → Ledger D → Type 0
IsFilled Market.spot l amount l' =
    (l'.spot.quantity ≡ l.spot.quantity ⊕ amount) × (l'.perp.quantity ≡ l.perp.quantity)
IsFilled Market.perp l amount l' =
    (l'.spot.quantity ≡ l.spot.quantity) × (l'.perp.quantity ≡ l.perp.quantity ⊕ amount)

market_eq→eq : (a b : Market) → market_eq a b ≡ true → a ≡ b
market_eq→eq Market.spot Market.spot h = refl
market_eq→eq Market.perp Market.perp h = refl
market_eq→eq Market.spot Market.perp h = cc
market_eq→eq Market.perp Market.spot h = cc

module _ {D : Type 0} ⦃d : Number D⦄ where
  filled_on-IsFilled :
      (m : Market) (l : Ledger D) (e : Fill D) (rate : D)
      → IsFilled m l e.quantity (filled_on m l e rate)
  unfolding filled_on
  filled_on-IsFilled Market.spot l e rate = (refl, refl)
  filled_on-IsFilled Market.perp l e rate = (refl, refl)

  fill-IsFilled :
      (l : Ledger D) (e : Fill D) {l' : Ledger D}
      → fill l e ≡ ok l'
      → IsFilled e.market l e.quantity l'
  fill-IsFilled l e h =
      let (rate, _, _, _, same) = fill-eq-ok l e h in
      subst (IsFilled e.market l e.quantity) same (filled_on-IsFilled e.market l e rate)

  pub add_interchange : IsExact D → (a b c e : D) → a ⊕ b ⊕ (c ⊕ e) ≡ a ⊕ c ⊕ (b ⊕ e)
  add_interchange exact a b c e =
      exact.add_assoc a b (c ⊕ e)
      ∙ ap (λ x. a ⊕ x)
          (sym (exact.add_assoc b c e)
            ∙ ap (λ x. x ⊕ e) (exact.add_comm b c)
            ∙ exact.add_assoc c b e)
      ∙ sym (exact.add_assoc a c (b ⊕ e))

  amounts_cancel :
      IsExact D → (q : D) (opening : Bool) → spot_amount q opening ⊕ perp_amount q opening ≡ nought
  amounts_cancel exact q true = exact.add-negate q
  amounts_cancel exact q false = exact.add_comm (negate q) q ∙ exact.add-negate q

  -- The quantities of the legs cancel.
  abbrev pub IsHedged : Ledger D → Type 0
  IsHedged l = l.spot.quantity ⊕ l.perp.quantity ≡ nought

module _ {D F : Type 0} ⦃d : Number D⦄ ⦃n : Number F⦄ ⦃v : Conversions D F⦄ where
  unexpected-eq :
      IsExact D
      → (config : Config D F) (event : MarketEvent D F) (m : Market) (amount : D) (f : Fill D)
      → unexpected config event m amount f ≡ false
      → (f.market ≡ m) × (f.quantity ≡ amount)
  unfolding unexpected
  unexpected-eq exact config event m amount f h =
      let (as_market, rest) = or_false (not (market_eq f.market m)) _ h in
      let (as_quantity, _) = or_false (not (f.quantity ≗ amount)) _ rest in
      (market_eq→eq f.market m (ground arith), (exact.eq_iff f.quantity amount).0 (ground arith))

  -- A booked pair moves both legs by the quantity, in opposite directions.
  pub IsBooked-quantities :
      IsExact D
      → (config : Config D F) (event : MarketEvent D F) (quantity : D) (opening : Bool)
        {l l' : Ledger D}
      → IsBooked config event quantity opening l l'
      → (l'.spot.quantity ≡ l.spot.quantity ⊕ spot_amount quantity opening)
        × (l'.perp.quantity ≡ l.perp.quantity ⊕ perp_amount quantity opening)
  IsBooked-quantities exact config event quantity opening {l} {l'} b =
      let (is_spot, spot_by) = unexpected-eq exact config event _ _ b.spot_fill b.spot_expected in
      let (is_perp, perp_by) = unexpected-eq exact config event _ _ b.perp_fill b.perp_expected in
      let first =
        subst (λ m. IsFilled m l b.spot_fill.quantity b.between) is_spot
          (fill-IsFilled l b.spot_fill b.spot_booked) in
      let second =
        subst (λ m. IsFilled m b.between b.perp_fill.quantity l') is_perp
          (fill-IsFilled b.between b.perp_fill b.perp_booked) in
      (
        second.0 ∙ first.0 ∙ ap (λ x. l.spot.quantity ⊕ x) spot_by,
        second.1 ∙ ap₂ ◌⊕◌ first.1 perp_by,
      )

  pub IsBooked-IsHedged :
      IsExact D
      → (config : Config D F) (event : MarketEvent D F) (quantity : D) (opening : Bool)
        {l l' : Ledger D}
      → IsBooked config event quantity opening l l'
      → IsHedged l
      → IsHedged l'
  IsBooked-IsHedged exact config event quantity opening {l} b h =
      let (spot, perp) = IsBooked-quantities exact config event quantity opening b in
      ap₂ ◌⊕◌ spot perp
      ∙ add_interchange exact _ _ _ _
      ∙ ap₂ ◌⊕◌ h (amounts_cancel exact quantity opening)
      ∙ exact.add-nought nought
