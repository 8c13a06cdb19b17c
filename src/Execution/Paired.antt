-- ===== src/Execution/Paired.antt =====
-- Both executors fill a pair: the two markets at one event, in opposite quantities.
use perpetuals_carry_strateg.Base.{
  ℕ, Bool, true, false, not, Option, none, some, ◌≡◌, refl, sym, ◌∙◌,
}
use mathlib.Core.Path.{subst}
use perpetuals_carry_strateg.Base.Result.{ok, Error, >>=-eq-ok, raise_if-eq-ok, ok_injective}
use perpetuals_carry_strateg.Number.{Number, Conversions, ◌⊕◌, ◌⊗◌, nought, one, negate}
use perpetuals_carry_strateg.Number.Laws.{IsExact}
use perpetuals_carry_strateg.Number.Linear.{add_right_cancel}
use perpetuals_carry_strateg.Number.Products.{negate-mul}
use perpetuals_carry_strateg.Fees.{Market}
use perpetuals_carry_strateg.Accounting.State.{Fill}
use perpetuals_carry_strateg.Execution.{
  MarketEvent, Opportunity, BookSnapshot, OrderSide, Walk, mid_of, direction, inferred_pair,
  inferred_with, inferred_fills, fill_of, book_fill, book_fills, execution_refused,
}

-- Turned around twice is the direction itself.
direction-not :
    {D : Type 0} ⦃d : Number D⦄
    → IsExact D
    → (opening : Bool) → direction {D = D} (not opening) ≡ negate (direction opening)
direction-not exact true = refl
direction-not exact false = add_right_cancel exact _ _ (negate one) (
    exact.add-negate one
    ∙ sym (exact.add_comm (negate (negate one)) (negate one) ∙ exact.add-negate (negate one)))

module _ {D F : Type 0} ⦃d : Number D⦄ where
  -- A fill of one market at the event: its symbol, its time and its mid, in the quantity given.
  pub record IsFillOf (event : MarketEvent D F) (on : Market) (amount : D) (f : Fill D)
      : Type 0 where
    pub market : f.market ≡ on
    pub quantity : f.quantity ≡ amount
    pub symbol : f.symbol ≡ event.marks.symbol
    pub time : f.time_ms ≡ event.time_ms
    pub mid : f.reference_mid ≡ mid_of event on

  -- A pair that opens or closes the carry.
  pub record IsPaired (event : MarketEvent D F) (quantity : D) (opening : Bool)
      (pair : Fill D × Fill D) : Type 0 where
    pub spot : IsFillOf event Market.spot (direction opening ⊗ quantity) pair.0
    pub perp : IsFillOf event Market.perp (negate (direction opening) ⊗ quantity) pair.1
    pub balanced : pair.0.quantity ⊕ pair.1.quantity ≡ nought

  fill_of-IsFillOf :
      (event : MarketEvent D F) (market : Market) (quantity price : D)
      → IsFillOf event market quantity (fill_of event market quantity price)
  unfolding fill_of
  fill_of-IsFillOf event market quantity price = record {
    market = refl;
    quantity = refl;
    symbol = refl;
    time = refl;
    mid = refl;
  }

  -- Fills of both markets in opposite directions make a pair.
  paired :
      IsExact D
      → (event : MarketEvent D F) (quantity : D) (opening : Bool) (spot perp : Fill D)
      → IsFillOf event Market.spot (direction opening ⊗ quantity) spot
      → IsFillOf event Market.perp (negate (direction opening) ⊗ quantity) perp
      → IsPaired event quantity opening (spot, perp)
  paired exact event quantity opening spot perp s p = record {
    spot = s;
    perp = p;
    balanced =
        rw (s.quantity, p.quantity, negate-mul exact (direction opening) quantity)
          (exact.add-negate (direction opening ⊗ quantity));
  }

module _ {D F : Type 0} ⦃d : Number D⦄ ⦃n : Number F⦄ ⦃v : Conversions D F⦄ where
  inferred_with-IsPaired :
      IsExact D
      → (event : MarketEvent D F) (o : Option (Opportunity D F)) (quantity : D) (opening : Bool)
        {pair : Fill D × Fill D}
      → inferred_with event o quantity opening ≡ ok pair
      → IsPaired event quantity opening pair
  unfolding inferred_with inferred_pair
  inferred_with-IsPaired exact event none quantity opening h = cc
  inferred_with-IsPaired exact event (some o) quantity opening h =
      let (_, h₁) =
        raise_if-eq-ok (execution_refused event o quantity) Error.execution_unavailable _ h in
      subst (IsPaired event quantity opening) (ok_injective h₁) (
        paired exact event quantity opening _ _ (fill_of-IsFillOf event Market.spot _ _)
          (fill_of-IsFillOf event Market.perp _ _))

  -- The fills of the inferred executor are of both markets at the event, spot in the direction of
  -- the carry and the perpetual against it, in quantities that cancel, if decimals are exact.
  pub inferred_fills-IsPaired :
      IsExact D
      → (event : MarketEvent D F) (quantity : D) (opening : Bool) {pair : Fill D × Fill D}
      → inferred_fills event quantity opening ≡ ok pair
      → IsPaired event quantity opening pair
  unfolding inferred_fills
  inferred_fills-IsPaired exact event quantity opening h =
      inferred_with-IsPaired exact event event.opportunity quantity opening h

module _ {D F Book : Type 0} ⦃d : Number D⦄ ⦃v : Conversions D F⦄
    (provider : ℕ → Market → BookSnapshot Book) (simulate : Book → OrderSide → F → Walk F)
    (is_close : F → F → Bool) where
  book_fill-IsFillOf :
      (event : MarketEvent D F) (quantity : D) (market : Market) (buys : Bool) {f : Fill D}
      → book_fill provider simulate is_close event quantity market buys ≡ ok f
      → IsFillOf event market (direction buys ⊗ quantity) f
  unfolding book_fill
  book_fill-IsFillOf event quantity market buys h =
      let (_, h₁) = raise_if-eq-ok _ Error.execution_unavailable _ h in
      let (_, h₂) = raise_if-eq-ok _ Error.execution_unavailable _ h₁ in
      subst (IsFillOf event market (direction buys ⊗ quantity)) (ok_injective h₂)
        (fill_of-IsFillOf event market _ _)

  -- The fills that the book executor returns are of both markets at the event, spot in the
  -- direction of the carry and the perpetual against it, in quantities that cancel, whatever the
  -- books and the simulator return, if decimals are exact.
  pub book_fills-IsPaired :
      IsExact D
      → (event : MarketEvent D F) (quantity : D) (opening : Bool) {pair : Fill D × Fill D}
      → book_fills provider simulate is_close event quantity opening ≡ ok pair
      → IsPaired event quantity opening pair
  unfolding book_fills
  book_fills-IsPaired exact event quantity opening h =
      let (spot, bought, h₁) =
        >>=-eq-ok (book_fill provider simulate is_close event quantity Market.spot opening) _ h in
      let (perp, sold, h₂) =
        >>=-eq-ok (book_fill provider simulate is_close event quantity Market.perp (not opening)) _
          h₁ in
      let opposite =
        subst (λ x. IsFillOf event Market.perp (x ⊗ quantity) perp) (direction-not exact opening)
          (book_fill-IsFillOf event quantity Market.perp (not opening) sold) in
      subst (IsPaired event quantity opening) (ok_injective h₂) (
        paired exact event quantity opening spot perp
          (book_fill-IsFillOf event quantity Market.spot opening bought) opposite)
