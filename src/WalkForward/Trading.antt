-- ===== src/WalkForward/Trading.antt =====
-- `_Runner.reserve`, `admit`, `charges` and `trade`.
use perpetuals_carry_strateg.Base.{
  ℕ, ◌*◌, ◌/◌, String, Bool, true, false, not, ◌&&◌, ◌||◌, Option, none, some, List, [], ◌∷◌, ltb,
  leb, ◌==◌, if◌then◌else◌,
}
use perpetuals_carry_strateg.Base.Text.{str_eq}
use perpetuals_carry_strateg.Base.Result.{Result, ok, err, Error, raise_if, ◌>>◌, ◌>>=◌}
use perpetuals_carry_strateg.Number.{
  Number, Conversions, ◌⊕◌, ◌⊗◌, ◌⊘◌, ◌≺◌, ◌≗◌, negate, number_of, absolute,
}
use perpetuals_carry_strateg.Calendar.{fold_start}
use perpetuals_carry_strateg.Fees.{Market, market_eq, FeeSchedule, quote}
use perpetuals_carry_strateg.Accounting.Leg.{unrealized}
use perpetuals_carry_strateg.Accounting.State.{Fill, Ledger}
use perpetuals_carry_strateg.Accounting.Fills.{fill}
use perpetuals_carry_strateg.Carry.Types.{is_synthetic}
use perpetuals_carry_strateg.Costs.{ExecutionCharges}
use perpetuals_carry_strateg.Sizing.{checked_charges}
use perpetuals_carry_strateg.Execution.{Opportunity, MarketEvent, mid_of}
use perpetuals_carry_strateg.Rolling.History.{day_ms}
use perpetuals_carry_strateg.WalkForward.{ExecutionMode, mode_eq, Config, Environment, Runner}

-- `fold_curves.get(fold)`
abbrev pub curve_of : ℕ → List (ℕ × String) → Option String
curve_of fold [] = none
curve_of fold ((key, digest) ∷ rest) = if key == fold then some digest else curve_of fold rest

-- `fold_curves.setdefault(fold, digest)`: the dictionary afterwards.
abbrev pub with_default : ℕ → String → Option String → List (ℕ × String) → List (ℕ × String)
with_default fold digest none curves = (fold, digest) ∷ curves
with_default fold digest (some previous) curves = curves

-- The value that it returns.
abbrev pub previous_or : String → Option String → String
previous_or digest none = digest
previous_or digest (some previous) = previous

module _ {D : Type 0} ⦃d : Number D⦄ where
  abbrev pub available_of : Ledger D → D → D
  available_of l mark = l.cash_usdt ⊕ unrealized l.perp mark

  -- The quantities of the two fills.
  abbrev pub spot_amount : D → Bool → D
  spot_amount quantity opening = if opening then quantity else negate quantity

  abbrev pub perp_amount : D → Bool → D
  perp_amount quantity opening = if opening then negate quantity else quantity

module _ {D F : Type 0} ⦃d : Number D⦄ where
  abbrev pub reserve_of : Config D F → Ledger D → D → D
  reserve_of config l mark = absolute l.perp.quantity ⊗ mark ⊗ config.collateral_fraction

  -- Whether the collateral is short of the reserve.
  unfoldable pub reserve_short : Config D F → Ledger D → D → Bool
  unfolding unrealized
  reserve_short config l mark = available_of l mark ≺ reserve_of config l mark

  -- `reserve`
  unfoldable pub reserve : Config D F → Ledger D → D → Result (Unit {0})
  unfolding reserve_short
  reserve config l mark = do
    raise_if (reserve_short config l mark) Error.execution_unavailable
    ok tt

module _ {D F : Type 0} ⦃d : Number D⦄ ⦃n : Number F⦄ ⦃v : Conversions D F⦄ where
  -- The test of `admit` on an opportunity.
  unfoldable pub opportunity_refused : Config D F → MarketEvent D F → Opportunity D F → Bool
  opportunity_refused config event o =
      not (o.fold_start_ms == fold_start event.time_ms)
      || (ltb o.fold_start_ms o.curve.evidence_end_exclusive_ms
          || (ltb event.time_ms o.curve.admitted_at_ms
              || (not (str_eq o.curve.symbol config.symbol)
                  || ((is_synthetic o.curve.kind && not config.policy.allow_synthetic_costs)
                      || (not (str_eq o.market.symbol config.symbol)
                          || (ltb event.time_ms o.market.observed_at_ms
                              || (leb o.market.valid_until_ms event.time_ms
                                  || (not (
                                        o.market.adv_end_exclusive_ms
                                        == event.time_ms / day_ms * day_ms)
                                      || ((ltb event.time_ms o.market.metadata_valid_from_ms
                                            || leb o.market.metadata_valid_until_ms event.time_ms)
                                          || not (
                                              o.market.price_usdt
                                              ≗ v.to_float event.perp_mid))))))))))

  -- `admit` of an opportunity that is not refused: its curve is the one of its fold.
  unfoldable pub seal : Runner D F → Opportunity D F → Result (Runner D F)
  seal r o =
      let previous = curve_of o.fold_start_ms r.fold_curves in
      let digest = o.curve.artifact_sha256 in
      do
        raise_if (not (str_eq (previous_or digest previous) digest)) Error.value_error
        ok (record r { fold_curves = with_default o.fold_start_ms digest previous r.fold_curves })

  unfoldable pub admit_from :
      Config D F
      → Runner D F
      → MarketEvent D F
      → Option (Opportunity D F)
      → Result (Runner D F × Option (Opportunity D F))
  unfolding opportunity_refused seal
  admit_from config r event none = ok (r, none)
  admit_from config r event (some o) =
      if opportunity_refused config event o
      then ok (r, none)
      else (seal r o >>= λ r'. ok (r', some o))

  -- `admit`
  unfoldable pub admit :
      Config D F → Runner D F → MarketEvent D F → Result (Runner D F × Option (Opportunity D F))
  unfolding admit_from
  admit config r event = admit_from config r event event.opportunity

  -- A fee in basis points.
  abbrev pub fee_bps : D → F
  fee_bps fee = v.to_float fee ⊗ number_of 10_000

  -- `charges`
  unfoldable pub charges :
      Config D F → FeeSchedule D → MarketEvent D F → Opportunity D F → Result (ExecutionCharges F)
  unfolding checked_charges
  charges config fees event o = do
    perp_fee ← quote fees config.symbol Market.perp event.time_ms
    spot_fee ← quote fees config.symbol Market.spot event.time_ms
    let hedge =
        (fee_bps spot_fee ⊕ o.spot_execution_bps) ⊗ v.to_float (event.spot_mid ⊘ event.perp_mid)
    checked_charges (record {
      entry_half_spread_bps = o.perp_half_spread_bps;
      close_half_spread_bps = o.perp_half_spread_bps;
      entry_fee_bps = fee_bps perp_fee;
      close_fee_bps = fee_bps perp_fee;
      hedge_entry_bps = hedge;
      hedge_close_bps = hedge;
      financing_fraction = o.financing_fraction;
    })

  -- Whether a fill is not the one expected of a market.
  unfoldable pub unexpected : Config D F → MarketEvent D F → Market → D → Fill D → Bool
  unexpected config event market amount f =
      not (market_eq f.market market)
      || (not (f.quantity ≗ amount)
          || (not (f.time_ms == event.time_ms)
              || (not (str_eq f.symbol config.symbol)
                  || not (f.reference_mid ≗ mid_of event market))))

  -- The two fills, if they are as expected, booked on the ledger.
  unfoldable pub proposed :
      Config D F → Ledger D → MarketEvent D F → D → Bool → List (Fill D) → Result (Ledger D)
  unfolding unexpected
  proposed config l event quantity opening (s ∷ p ∷ []) = do
    raise_if
        (unexpected config event Market.spot (spot_amount quantity opening) s
          || unexpected config event Market.perp (perp_amount quantity opening) p)
        Error.execution_unavailable
    l' ← fill l s
    fill l' p
  proposed config l event quantity opening _ = err Error.execution_unavailable

  -- An opportunity that `trade` in inferred mode cannot do without.
  abbrev pub require : Runner D F × Option (Opportunity D F) → Result (Runner D F)
  require (r, none) = err Error.execution_unavailable
  require (r, some o) = ok r

  -- Inferred execution uses an admitted curve.
  unfoldable pub admit_for_trade : Config D F → Runner D F → MarketEvent D F → Result (Runner D F)
  unfolding admit
  admit_for_trade config r event =
      if mode_eq config.execution_mode ExecutionMode.inferred
      then (admit config r event >>= require)
      else ok r

module _ {D F Summary : Type 0} ⦃d : Number D⦄ ⦃n : Number F⦄ ⦃v : Conversions D F⦄ where
  -- `trade`: whether it was booked, which an opening without reserve is not.
  unfoldable pub trade :
      Environment D F Summary → Runner D F → MarketEvent D F → D → Bool → Result (Runner D F × Bool)
  unfolding admit_for_trade proposed reserve_short
  trade env r event quantity opening = do
    r' ← admit_for_trade env.config r event
    fills ← env.executor.fills event quantity opening
    l ← proposed env.config r'.ledger event quantity opening fills
    if opening && reserve_short env.config l event.marks.perp
        then ok (r', false)
        else ok (record r' { ledger = l }, true)
