-- ===== src/Fees.antt =====
-- Dated taker fees: python/perpcarry/strategy/fees.py, but for the reading of the TOML file.
pub mod Quote
mod Examples
use Prim.Native.Nat.{max, min}
use text.Mathlib.Text.{starts_with}
use perpetuals_carry_strateg.Base.{
  ℕ, String, Bool, true, false, not, ◌&&◌, ◌||◌, List, [], ◌∷◌, ltb, leb, if◌then◌else◌,
}
use perpetuals_carry_strateg.Base.Lists.{any}
use perpetuals_carry_strateg.Base.Text.{is_empty, str_eq}
use perpetuals_carry_strateg.Base.Result.{Result, ok, err, Error, raise_if, ◌>>◌, ◌>>=◌}
use perpetuals_carry_strateg.Number.{Number, ◌≺◌, ◌≼◌, nought, one}
use perpetuals_carry_strateg.Checks.{decimal, timestamp}

pub data Market : Type 0 where
  spot perp : Market

abbrev pub market_eq : Market → Market → Bool
market_eq Market.spot Market.spot = true
market_eq Market.perp Market.perp = true
market_eq _ _ = false

pub data FeeKind : Type 0 where
  verified assumption : FeeKind

pub record FeePeriod (D : Type 0) : Type 0 where
  pub symbol : String
  pub market : Market
  pub start_ms : ℕ
  pub end_ms : ℕ
  pub taker_fraction : D
  pub source : String
  pub observed_at_ms : ℕ
  pub kind : FeeKind

pub record FeeSchedule (D : Type 0) : Type 0 where
  pub periods : List (FeePeriod D)
  pub allow_assumptions : Bool

module _ {D : Type 0} where
  abbrev no_periods : List (FeePeriod D) → Bool
  no_periods [] = true
  no_periods (p ∷ ps) = false

  -- The test of `FeeSchedule.__post_init__` on two periods.
  unfoldable pub overlaps : FeePeriod D → FeePeriod D → Bool
  overlaps left right =
      (str_eq left.symbol right.symbol && market_eq left.market right.market)
      && ltb (max left.start_ms right.start_ms) (min left.end_ms right.end_ms)

  -- Its two loops: each period against those behind it.
  unfoldable pub some_overlap : List (FeePeriod D) → Bool
  unfolding overlaps
  some_overlap [] = false
  some_overlap (left ∷ periods) = any (overlaps left) periods || some_overlap periods

  -- The test of `FeeSchedule.quote` on one period.
  unfoldable pub covers : FeePeriod D → String → Market → ℕ → Bool
  covers period symbol market time_ms =
      str_eq period.symbol symbol
      && (market_eq period.market market
          && (leb period.start_ms time_ms && ltb time_ms period.end_ms))

  -- What `FeeSchedule.quote` does with the first period that covers the time.
  unfoldable pub charge : Bool → FeePeriod D → ℕ → Result D
  charge allow_assumptions period time_ms = charge_kind period.kind
    where
      charge_kind : FeeKind → Result D
      charge_kind FeeKind.assumption =
          if not allow_assumptions then err Error.value_error else ok period.taker_fraction
      charge_kind FeeKind.verified =
          if ltb time_ms period.observed_at_ms
          then err Error.value_error
          else ok period.taker_fraction

  unfoldable pub quote_from : Bool → String → Market → ℕ → List (FeePeriod D) → Result D
  unfolding covers charge
  quote_from allow symbol market time_ms [] = err Error.value_error
  quote_from allow symbol market time_ms (period ∷ periods) =
      if covers period symbol market time_ms
      then charge allow period time_ms
      else quote_from allow symbol market time_ms periods

  -- `FeeSchedule.quote`
  unfoldable pub quote : FeeSchedule D → String → Market → ℕ → Result D
  unfolding quote_from timestamp
  quote fees symbol market time_ms = do
    timestamp time_ms
    quote_from fees.allow_assumptions symbol market time_ms fees.periods

module _ {D : Type 0} ⦃n : Number D⦄ where
  -- `FeePeriod.__post_init__`
  unfoldable pub check_period : FeePeriod D → Result (FeePeriod D)
  unfolding decimal timestamp
  check_period p = do
    timestamp p.start_ms
    timestamp p.end_ms
    timestamp p.observed_at_ms
    decimal p.taker_fraction
    raise_if
        (is_empty p.symbol
          || (leb p.end_ms p.start_ms
              || (not (nought ≼ p.taker_fraction && p.taker_fraction ≺ one)
                  || not (starts_with p.source "https://"))))
        Error.value_error
    ok p

-- `FeeSchedule.__post_init__`
unfoldable pub check_schedule : {D : Type 0} → FeeSchedule D → Result (FeeSchedule D)
unfolding some_overlap
check_schedule fees = do
  raise_if (no_periods fees.periods) Error.value_error
  raise_if (some_overlap fees.periods) Error.value_error
  ok fees
