-- ===== src/FundingSeries/Examples.antt =====
-- Two days of settlements every 8 hours, and February 1970 with one a day.
use perpetuals_carry_strateg.Base.{
  ℕ, zero, suc, ◌*◌, ◌+◌, ◌<◌, false, List, [], ◌∷◌, ◌≡◌, refl, arith,
}
use perpetuals_carry_strateg.Base.Result.{ok, err, Error}
use perpetuals_carry_strateg.Number.Counts.{counts_number, quotient}
use perpetuals_carry_strateg.Calendar.{Date, month_bounds}
use perpetuals_carry_strateg.FundingSeries.{Settlement, validate_series}
use perpetuals_carry_strateg.FundingSeries.Month.{MonthReport, settlement_gaps, check_month}
use perpetuals_carry_strateg.FundingSeries.Coverage.{
  IsCovered, validate_series-settlement_gaps, validate_series-IsCovered, check_month-IsCovered,
}

-- A settlement a number of milliseconds after an hour of a day.
abbrev at_hour : ℕ → ℕ → ℕ → ℕ → Settlement ℕ
at_hour interval day hour late = record {
  funding_time = day * 86_400_000 + hour * 3_600_000 + late;
  symbol = "BTCUSDT";
  funding_rate = 0;
  funding_interval_hours = interval;
  date = day;
}

-- The source is a few milliseconds late at times.
abbrev two_days : List (Settlement ℕ)
two_days =
    at_hour 8 0 0 3
    ∷ at_hour 8 0 8 0
    ∷ at_hour 8 0 16 1
    ∷ at_hour 8 1 0 0
    ∷ at_hour 8 1 8 7
    ∷ at_hour 8 1 16 0
    ∷ []

two_days_valid : validate_series two_days 0 2 ≡ ok tt
unfolding validate_series quotient
two_days_valid = refl

-- Without the settlement at hour 16 of the first day, the series is refused, and it is listed.
gapped_refused :
    validate_series
      (at_hour 8 0 0 3
        ∷ at_hour 8 0 8 0
        ∷ at_hour 8 1 0 0
        ∷ at_hour 8 1 8 7
        ∷ at_hour 8 1 16 0
        ∷ [])
      0
      2
    ≡ err Error.funding_series_error
unfolding validate_series quotient
gapped_refused = refl

gap_listed :
    settlement_gaps quotient (at_hour 8 0 8 0 ∷ at_hour 8 1 0 0 ∷ [])
    ≡ ok
        (record { previous_time = 28_800_000; expected_next_time = 57_600_000; n_missing = 1 } ∷ [])
unfolding settlement_gaps quotient
gap_listed = refl

validate_series-settlement_gaps_example : settlement_gaps quotient two_days ≡ ok []
validate_series-settlement_gaps_example =
    validate_series-settlement_gaps quotient two_days 0 2 two_days_valid

validate_series-IsCovered_example : IsCovered 100_000_000 172_800_000 two_days
validate_series-IsCovered_example =
    validate_series-IsCovered two_days 0 2 100_000_000 two_days_valid (omega arith) (omega arith)

abbrev daily : ℕ → ℕ → List (Settlement ℕ)
daily day zero = []
daily day (suc n) = at_hour 24 day 0 0 ∷ daily (suc day) n

abbrev february : Date
february = record { year = 1970; month = 2; day = 1 }

abbrev report : MonthReport
report = record {
  symbol = "BTCUSDT";
  month = february;
  settlements = 28;
  intervals = 24 ∷ [];
  partial_start = false;
  interval_changes = [];
}

february_checked :
    check_month quotient (at_hour 24 31 0 0 ∷ daily 32 27) "BTCUSDT" february ≡ ok report
unfolding check_month quotient
february_checked = refl

in_month : 3_000_000_000 < (month_bounds february).1
unfolding month_bounds
in_month = omega arith

check_month-IsCovered_example :
    IsCovered 3_000_000_000 (month_bounds february).1 (at_hour 24 31 0 0 ∷ daily 32 27)
check_month-IsCovered_example =
    check_month-IsCovered quotient (at_hour 24 31 0 0) (daily 32 27) "BTCUSDT" february
      3_000_000_000 february_checked (omega arith) in_month
