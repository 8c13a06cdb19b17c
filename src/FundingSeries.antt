-- ===== src/FundingSeries.antt =====
-- Settlement rows: the checks of python/perpcarry/ingestion/fetch_funding.py on a month, and
-- `validate` of python/perpcarry/ingestion/funding_series.py on a window.
--
-- A frame is the list of its rows; its columns and their types are those of the record, and a date
-- is its day since January 1st, 1970. Division and `round` of floats are the parameter `rounded`.
pub mod Month
pub mod Coverage
mod Examples
use perpetuals_carry_strateg.Base.{
  ℕ, zero, suc, ◌+◌, ◌-◌, ◌*◌, ◌/◌, String, Bool, true, false, not, ◌&&◌, ◌||◌, Option, none, some,
  List, [], ◌∷◌, map, ltb, leb, ◌==◌, if◌then◌else◌,
}
use perpetuals_carry_strateg.Base.Lists.{length, get_last?, all, any}
use perpetuals_carry_strateg.Base.Text.{str_eq}
use perpetuals_carry_strateg.Base.Result.{Result, ok, err, Error, raise_if, ◌>>◌, ◌>>=◌}
use perpetuals_carry_strateg.Number.{Number, ◌⊘◌, ◌≺◌, ◌≼◌, negate, number_of, is_finite, absolute}
use perpetuals_carry_strateg.Rolling.History.{day_ms, apart}

pub record Settlement (F : Type 0) : Type 0 where
  pub funding_time : ℕ
  pub symbol : String
  pub funding_rate : F
  pub funding_interval_hours : ℕ
  pub date : ℕ

abbrev pub tolerance_ms : ℕ
tolerance_ms = 5_000

abbrev pub ms_per_hour : ℕ
ms_per_hour = 3_600_000

module _ {F : Type 0} where
  abbrev pub step_of : Settlement F → ℕ
  step_of row = row.funding_interval_hours * ms_per_hour

  -- A test of every row against the one before it.
  unfoldable pub any_pair : (Settlement F → Settlement F → Bool) → List (Settlement F) → Bool
  any_pair p [] = false
  any_pair p (row ∷ []) = false
  any_pair p (row ∷ next ∷ rows) = p row next || any_pair p (next ∷ rows)

  abbrev pub unordered : Settlement F → Settlement F → Bool
  unordered row next = leb next.funding_time row.funding_time

  abbrev pub irregular : Settlement F → Settlement F → Bool
  irregular row next =
      ltb tolerance_ms (apart (next.funding_time - row.funding_time) (step_of next))

  abbrev pub of_symbol : Option (Settlement F) → List (Settlement F) → Bool
  of_symbol none rows = false
  of_symbol (some row) rows = all (λ r. str_eq r.symbol row.symbol) rows

  abbrev pub first_row : List (Settlement F) → Option (Settlement F)
  first_row [] = none
  first_row (row ∷ rows) = some row

  -- Whether the endpoints of the window are not covered.
  abbrev pub ends_refused : ℕ → ℕ → Option (Settlement F) → Option (Settlement F) → Bool
  ends_refused first stop (some row) (some last) =
      ltb tolerance_ms (row.funding_time - first)
      || ltb tolerance_ms (apart (stop - last.funding_time) (step_of last))
  ends_refused first stop _ _ = true

-- `range(n)` days from a day on.
abbrev pub days_from : ℕ → ℕ → List ℕ
days_from day zero = []
days_from day (suc n) = day ∷ days_from (suc day) n

-- `set(frame.date) != expected_days`
unfoldable pub days_differ : ℕ → ℕ → List ℕ → Bool
days_differ start end dates = not (
    all (λ day. any (λ d. d == day) dates) (days_from start (end - start))
    && all (λ d. leb start d && ltb d end) dates)

module _ {F : Type 0} ⦃n : Number F⦄ where
  -- `RATE_SANITY_BOUND`
  abbrev pub rate_bound : F
  rate_bound = number_of 5 ⊘ number_of 100

  abbrev pub rate_refused : Settlement F → Bool
  rate_refused row = not (is_finite row.funding_rate) || rate_bound ≺ absolute row.funding_rate

  abbrev pub interval_refused : Settlement F → Bool
  interval_refused row = row.funding_interval_hours == 0 || ltb 24 row.funding_interval_hours

  -- `validate`
  unfoldable pub validate_series : List (Settlement F) → ℕ → ℕ → Result (Unit {0})
  unfolding any_pair days_differ
  validate_series rows start end =
      let first = start * day_ms in
      let stop = end * day_ms in
      do
        raise_if (leb end start || length rows == 0) Error.funding_series_error
        raise_if (not (of_symbol (first_row rows) rows)) Error.funding_series_error
        raise_if (any rate_refused rows) Error.funding_series_error
        raise_if (any interval_refused rows) Error.funding_series_error
        raise_if (any (λ row. not (row.date == row.funding_time / day_ms)) rows)
            Error.funding_series_error
        raise_if (any (λ row. ltb row.funding_time first || leb stop row.funding_time) rows)
            Error.funding_series_error
        raise_if (any_pair unordered rows) Error.funding_series_error
        raise_if (any_pair irregular rows) Error.funding_series_error
        raise_if (ends_refused first stop (first_row rows) (get_last? rows))
            Error.funding_series_error
        raise_if (days_differ start end (map (λ row. row.date) rows)) Error.funding_series_error
        ok tt
