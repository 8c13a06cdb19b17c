-- ===== src/Execution.antt =====
-- Paired fills of python/perpcarry/strategy/execution.py, and the events of
-- python/perpcarry/strategy/walk_forward.py that they fill.
--
-- The provider of book snapshots, the C++ simulator and `math.isclose` are parameters.
pub mod Paired
mod Examples
use perpetuals_carry_strateg.Base.{
  ℕ, String, Bool, true, false, not, ◌&&◌, ◌||◌, Option, none, some, ltb, leb, ◌==◌, if◌then◌else◌,
}
use perpetuals_carry_strateg.Base.Text.{str_eq, joined}
use perpetuals_carry_strateg.Base.Result.{Result, ok, err, Error, raise_if, ◌>>◌, ◌>>=◌}
use perpetuals_carry_strateg.Number.{
  Number, Conversions, ◌⊕◌, ◌⊖◌, ◌⊗◌, ◌⊘◌, ◌≺◌, ◌≼◌, ◌≗◌, nought, one, negate, number_of,
  square_root,
}
use perpetuals_carry_strateg.Fees.{Market}
use perpetuals_carry_strateg.Carry.Types.{FundingApproval}
use perpetuals_carry_strateg.Costs.{ImpactCurve}
use perpetuals_carry_strateg.Sizing.{SizingInputs, checked_charges}
use perpetuals_carry_strateg.Accounting.State.{Fill, Marks}

pub record Opportunity (D F : Type 0) : Type 0 where
  pub fold_start_ms : ℕ
  pub curve : ImpactCurve F
  pub approval : Option FundingApproval
  pub market : SizingInputs D F
  pub perp_half_spread_bps : F
  pub spot_execution_bps : F
  pub financing_fraction : F

pub record MarketEvent (D F : Type 0) : Type 0 where
  pub event_id : String
  pub time_ms : ℕ
  pub spot_mid : D
  pub perp_mid : D
  pub marks : Marks D
  pub opportunity : Option (Opportunity D F)
  pub decide : Bool
  pub financing_usdt : D

pub record BookSnapshot (Book : Type 0) : Type 0 where
  pub symbol : String
  pub time_ms : ℕ
  pub book : Book

pub data OrderSide : Type 0 where
  buy sell : OrderSide

-- What the code reads of a simulated market order.
pub record Walk (F : Type 0) : Type 0 where
  pub exhausted_book : Bool
  pub crossed_at_entry : Bool
  pub beyond_validated_depth : Bool
  pub filled_quantity : F
  pub mid_at_entry : F
  pub average_price : F

-- The text of a market in an identifier.
abbrev pub suffix : Market → String
suffix Market.spot = ":spot"
suffix Market.perp = ":perp"

module _ {D F : Type 0} ⦃n : Number F⦄ where
  -- `Opportunity.__post_init__`
  unfoldable pub check_opportunity : Opportunity D F → Result (Opportunity D F)
  unfolding checked_charges
  check_opportunity o = do
    _ ← checked_charges (record {
      entry_half_spread_bps = o.perp_half_spread_bps;
      close_half_spread_bps = o.perp_half_spread_bps;
      entry_fee_bps = nought;
      close_fee_bps = nought;
      hedge_entry_bps = o.spot_execution_bps;
      hedge_close_bps = o.spot_execution_bps;
      financing_fraction = o.financing_fraction;
    })
    ok o

module _ {D F : Type 0} where
  abbrev pub mid_of : MarketEvent D F → Market → D
  mid_of event Market.spot = event.spot_mid
  mid_of event Market.perp = event.perp_mid

  -- `_fill`
  unfoldable pub fill_of : MarketEvent D F → Market → D → D → Fill D
  fill_of event market quantity price = record {
    event_id = joined event.event_id (suffix market);
    symbol = event.marks.symbol;
    time_ms = event.time_ms;
    market = market;
    quantity = quantity;
    price = price;
    reference_mid = mid_of event market;
  }

-- `Decimal(1 if opening else -1)`
abbrev pub direction : {D : Type 0} ⦃d : Number D⦄ → Bool → D
direction opening = if opening then one else negate one

module _ {D F : Type 0} ⦃d : Number D⦄ ⦃n : Number F⦄ ⦃v : Conversions D F⦄ where
  -- The size in daily volumes, as a decimal.
  abbrev pub size_of : Opportunity D F → D → D
  size_of o quantity = quantity ⊘ v.to_decimal o.market.adv_base

  -- The test of `InferredExecutor.fills` on its inputs.
  unfoldable pub execution_refused : MarketEvent D F → Opportunity D F → D → Bool
  execution_refused event o quantity =
      let fraction = v.to_float (size_of o quantity) in
      not (str_eq o.curve.symbol event.marks.symbol)
      || (ltb event.time_ms o.curve.admitted_at_ms
          || (ltb event.time_ms o.curve.evidence_end_exclusive_ms
              || (ltb event.time_ms o.market.observed_at_ms
                  || (leb o.market.valid_until_ms event.time_ms
                      || (not (o.curve.size_min ≼ fraction && fraction ≼ o.curve.size_max)
                          || o.market.validated_quantity_base ≺ v.to_float quantity)))))

  abbrev pub spot_fraction : Opportunity D F → D
  spot_fraction o = v.to_decimal o.spot_execution_bps ⊘ number_of 10_000

  abbrev pub perp_fraction : Opportunity D F → D → Bool → D
  perp_fraction o quantity opening =
      let coefficient =
        if opening then o.curve.sell_coefficient_bps else o.curve.buy_coefficient_bps in
      v.to_decimal coefficient ⊗ square_root (size_of o quantity) ⊘ number_of 10_000
      ⊕ v.to_decimal o.perp_half_spread_bps ⊘ number_of 10_000

  -- The fills that `InferredExecutor.fills` returns.
  unfoldable pub inferred_pair : MarketEvent D F → Opportunity D F → D → Bool → Fill D × Fill D
  unfolding fill_of
  inferred_pair event o quantity opening = (
    fill_of event Market.spot (direction opening ⊗ quantity)
        (event.spot_mid ⊗ (one ⊕ direction opening ⊗ spot_fraction o)),
    fill_of event Market.perp (negate (direction opening) ⊗ quantity)
        (event.perp_mid ⊗ (one ⊖ direction opening ⊗ perp_fraction o quantity opening)),
  )

  -- `InferredExecutor.fills`
  unfoldable pub inferred_with :
      MarketEvent D F → Option (Opportunity D F) → D → Bool → Result (Fill D × Fill D)
  unfolding execution_refused inferred_pair
  inferred_with event none quantity opening = err Error.execution_unavailable
  inferred_with event (some o) quantity opening = do
    raise_if (execution_refused event o quantity) Error.execution_unavailable
    ok (inferred_pair event o quantity opening)

  unfoldable pub inferred_fills : MarketEvent D F → D → Bool → Result (Fill D × Fill D)
  unfolding inferred_with
  inferred_fills event quantity opening = inferred_with event event.opportunity quantity opening

module _ {D F Book : Type 0} ⦃d : Number D⦄ ⦃v : Conversions D F⦄
    (provider : ℕ → Market → BookSnapshot Book) (simulate : Book → OrderSide → F → Walk F)
    (is_close : F → F → Bool) where
  -- Whether the walk is partial, outside the validated depth or of another book.
  unfoldable pub walk_refused : Walk F → F → D → Bool
  walk_refused walk quantity mid =
      walk.exhausted_book
      || (walk.crossed_at_entry
          || (walk.beyond_validated_depth
              || (not (is_close walk.filled_quantity quantity)
                  || not (v.to_decimal walk.mid_at_entry ≗ mid))))

  -- One pass of the loop of `BookExecutor.fills`, for an order that buys or sells.
  unfoldable pub book_fill : MarketEvent D F → D → Market → Bool → Result (Fill D)
  unfolding walk_refused fill_of
  book_fill event quantity market buys = do
    let snapshot = provider event.time_ms market
    raise_if
        (not (str_eq snapshot.symbol event.marks.symbol) || not (snapshot.time_ms == event.time_ms))
        Error.execution_unavailable
    let side = if buys then OrderSide.buy else OrderSide.sell
    let walk = simulate snapshot.book side (v.to_float quantity)
    raise_if (walk_refused walk (v.to_float quantity) (mid_of event market))
        Error.execution_unavailable
    ok (fill_of event market (direction buys ⊗ quantity) (v.to_decimal walk.average_price))

  -- `BookExecutor.fills`
  unfoldable pub book_fills : MarketEvent D F → D → Bool → Result (Fill D × Fill D)
  unfolding book_fill
  book_fills event quantity opening = do
    spot ← book_fill event quantity Market.spot opening
    perp ← book_fill event quantity Market.perp (not opening)
    ok (spot, perp)
