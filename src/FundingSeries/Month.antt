-- ===== src/FundingSeries/Month.antt =====
-- `settlement_gaps`, `interval_changes`, `expected_settlements` and `check_month`.
use perpetuals_carry_strateg.Base.{
  ℕ, ◌+◌, ◌-◌, ◌*◌, ◌/◌, String, Bool, true, false, not, ◌&&◌, Option, some, List, [], ◌∷◌, map,
  ltb, leb, ◌==◌, if◌then◌else◌,
}
use perpetuals_carry_strateg.Base.Lists.{length, get_last?, any}
use perpetuals_carry_strateg.Base.Result.{Result, ok, err, Error, raise_if, ◌>>◌, ◌>>=◌}
use perpetuals_carry_strateg.Number.{Number, ◌≼◌, negate}
use perpetuals_carry_strateg.Calendar.{Date, days_in_month, month_bounds, month_index, month_of}
use perpetuals_carry_strateg.Impact.Validate.{with_days}
use perpetuals_carry_strateg.FundingSeries.{
  Settlement, tolerance_ms, step_of, first_row, rate_bound,
}

pub record Gap : Type 0 where
  pub previous_time : ℕ
  pub expected_next_time : ℕ
  pub n_missing : ℕ

pub record Change : Type 0 where
  pub funding_time : ℕ
  pub old_interval : ℕ
  pub new_interval : ℕ

pub record MonthReport : Type 0 where
  pub symbol : String
  pub month : Date
  pub settlements : ℕ
  pub intervals : List ℕ
  pub partial_start : Bool
  pub interval_changes : List Change

-- `expected_settlements`
unfoldable pub expected_settlements : Date → ℕ → Result ℕ
unfolding days_in_month
expected_settlements month interval_hours = do
  raise_if (interval_hours == 0) Error.zero_division_error
  ok (days_in_month month.year month.month * 24 / interval_hours)

module _ {F : Type 0} where
  -- The loop of `interval_changes`, from the row before.
  unfoldable pub changes_from : Settlement F → List (Settlement F) → List Change
  changes_from previous [] = []
  changes_from previous (row ∷ rows) =
      let rest = changes_from row rows in
      if previous.funding_interval_hours == row.funding_interval_hours
      then rest
      else record {
        funding_time = row.funding_time;
        old_interval = previous.funding_interval_hours;
        new_interval = row.funding_interval_hours;
      }
        ∷ rest

  unfoldable pub interval_changes_of : List (Settlement F) → List Change
  unfolding changes_from
  interval_changes_of [] = []
  interval_changes_of (row ∷ rows) = changes_from row rows

  -- Whether the number of settlements of a month at one cadence is not the expected one.
  unfoldable pub check_count : Date → List ℕ → Bool → List (Settlement F) → Result (Unit {0})
  unfolding expected_settlements
  check_count month (interval ∷ []) false rows = do
    expected ← expected_settlements month interval
    raise_if (not (length rows == expected)) Error.funding_data_error
    ok tt
  check_count month intervals partial_start rows = ok tt

module _ {F : Type 0} where
  -- Whether a row follows the one before within its interval.
  abbrev pub follows : Settlement F → Settlement F → Bool
  follows previous row = leb (row.funding_time - previous.funding_time) (step_of row + tolerance_ms)

module _ {F : Type 0} (rounded : ℕ → ℕ → ℕ) where
  -- The gap between two rows that are too far apart; `max(missing, 1)` are missing.
  abbrev pub gap_between : Settlement F → Settlement F → Gap
  gap_between previous row =
      let missing = rounded (row.funding_time - previous.funding_time) (step_of row) - 1 in
      record {
        previous_time = previous.funding_time;
        expected_next_time = previous.funding_time + step_of row;
        n_missing = if ltb missing 1 then 1 else missing;
      }

  -- The loop of `settlement_gaps`, from the row before.
  unfoldable pub gaps_from : Settlement F → List (Settlement F) → Result (List Gap)
  gaps_from previous [] = ok []
  gaps_from previous (row ∷ rows) =
      let rest = gaps_from row rows in
      if follows previous row
      then rest
      else (raise_if (step_of row == 0) Error.zero_division_error
          >> (rest >>= λ gaps. ok (gap_between previous row ∷ gaps)))

  -- `settlement_gaps`
  unfoldable pub settlement_gaps : List (Settlement F) → Result (List Gap)
  unfolding gaps_from
  settlement_gaps [] = ok []
  settlement_gaps (row ∷ rows) = gaps_from row rows

abbrev pub any_gap : List Gap → Bool
any_gap [] = false
any_gap (gap ∷ gaps) = true

module _ {F : Type 0} where
  -- `check_month` from the first and the last row on.
  unfoldable pub check_coverage :
      List (Settlement F)
      → String
      → Date
      → Option (Settlement F)
      → Option (Settlement F)
      → Result MonthReport
  unfolding month_bounds with_days check_count interval_changes_of
  check_coverage rows symbol month (some first) (some last) =
      let bounds = month_bounds month in
      let partial_start = ltb (bounds.0 + tolerance_ms + step_of first) first.funding_time in
      let intervals = with_days (map (λ row. row.funding_interval_hours) rows) [] in
      do
        raise_if (ltb (last.funding_time + step_of last) (bounds.1 - tolerance_ms))
            Error.funding_data_error
        check_count month intervals partial_start rows
        ok (record {
          symbol = symbol;
          month = month;
          settlements = length rows;
          intervals = intervals;
          partial_start = partial_start;
          interval_changes = interval_changes_of rows;
        })
  check_coverage rows symbol month _ _ = err Error.funding_data_error

module _ {F : Type 0} ⦃n : Number F⦄ where
  -- The test of `implausible_rates`.
  abbrev pub is_implausible : Settlement F → Bool
  is_implausible row = not (negate rate_bound ≼ row.funding_rate && row.funding_rate ≼ rate_bound)

module _ {F : Type 0} ⦃n : Number F⦄ (rounded : ℕ → ℕ → ℕ) where
  -- `check_month`
  unfoldable pub check_month : List (Settlement F) → String → Date → Result MonthReport
  unfolding month_of settlement_gaps check_coverage
  check_month rows symbol month = do
    raise_if (length rows == 0) Error.funding_data_error
    raise_if (any (λ row. not ((month_of row.date).0 == month_index month)) rows)
        Error.funding_data_error
    gaps ← settlement_gaps rounded rows
    raise_if (any_gap gaps) Error.funding_data_error
    raise_if (any is_implausible rows) Error.funding_data_error
    check_coverage rows symbol month (first_row rows) (get_last? rows)
