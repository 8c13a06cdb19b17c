-- ===== src/Fees/Examples.antt =====
-- A schedule of two periods of one market, and the theorems on quotes at it.
use perpetuals_carry_strateg.Base.{ℕ, true, [], ◌∷◌, ◌≡◌, refl, inl, inr}
use perpetuals_carry_strateg.Base.Lists.{Among}
use perpetuals_carry_strateg.Base.Result.{ok, err, Error}
use perpetuals_carry_strateg.Fees.{
  Market, FeeKind, FeePeriod, FeeSchedule, covers, charge, quote, check_schedule,
}
use perpetuals_carry_strateg.Fees.Quote.{quote-eq-charge, quote-IsAdmitted, IsAdmitted}

abbrev period : ℕ → ℕ → ℕ → FeeKind → FeePeriod ℕ
period start end rate kind = record {
  symbol = "SOLUSDT";
  market = Market.perp;
  start_ms = start;
  end_ms = end;
  taker_fraction = rate;
  source = "https://example.org/fees";
  observed_at_ms = 50;
  kind = kind;
}

abbrev fees : FeeSchedule ℕ
fees = record {
  periods = period 0 100 4 FeeKind.verified ∷ period 100 200 5 FeeKind.assumption ∷ [];
  allow_assumptions = true;
}

fees_checked : check_schedule fees ≡ ok fees
unfolding check_schedule
fees_checked = refl

-- The interval is half open: at 100 the second period is charged.
later_covers : covers (period 100 200 5 FeeKind.assumption) "SOLUSDT" Market.perp 100 ≡ true
unfolding covers
later_covers = refl

quoted : quote fees "SOLUSDT" Market.perp 100 ≡ ok 5
unfolding quote
quoted = refl

-- Evidence that was observed at 50 is not yet known at 49.
too_early : quote fees "SOLUSDT" Market.perp 49 ≡ err Error.value_error
unfolding quote
too_early = refl

quote-eq-charge_example :
    quote fees "SOLUSDT" Market.perp 100 ≡ charge true (period 100 200 5 FeeKind.assumption) 100
quote-eq-charge_example =
    quote-eq-charge fees "SOLUSDT" Market.perp 100 (period 100 200 5 FeeKind.assumption)
      fees_checked (inr (inl refl)) later_covers

quote-IsAdmitted_example :
    (p : FeePeriod ℕ) × Among p fees.periods
    × (covers p "SOLUSDT" Market.perp 100 ≡ true)
    × (◌≡◌ {A = ℕ} 5 p.taker_fraction)
    × IsAdmitted true p 100
quote-IsAdmitted_example = quote-IsAdmitted fees "SOLUSDT" Market.perp 100 quoted
