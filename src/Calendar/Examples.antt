-- ===== src/Calendar/Examples.antt =====
-- Months of the years 2023 and 2024.
use perpetuals_carry_strateg.Base.{ℕ, ◌+◌, ◌*◌, ◌≤◌, ◌<◌, [], ◌∷◌, ◌≡◌, refl, arith, ◌==◌, ◌&&◌}
use perpetuals_carry_strateg.Rolling.History.{day_ms}
use perpetuals_carry_strateg.Calendar.{
  Date, is_leap, days_in_month, month_of, date_of, day_of, fold_start, next_month, months_between,
  month_bounds,
}
use perpetuals_carry_strateg.Calendar.Months.{IsDate, day_of-date_of}
use perpetuals_carry_strateg.Calendar.Folds.{
  firsts, fold_start_lem, fold_start-month_bounds, months_between-eq-firsts,
}

abbrev date : ℕ → ℕ → ℕ → Date
date y m d = record { year = y; month = m; day = d }

leap_day : date_of 19_782 ≡ date 2024 2 29
unfolding date_of month_of
leap_day = refl

november :
    months_between (date 2023 11 30) (date 2024 2 1)
    ≡ date 2023 11 1 ∷ date 2023 12 1 ∷ date 2024 1 1 ∷ date 2024 2 1 ∷ []
unfolding months_between next_month date_of day_of
november = refl

leap_day-IsDate : IsDate (date 2024 2 29)
unfolding days_in_month is_leap
leap_day-IsDate = record { from_1970 = omega arith; month_in = omega arith; day_in = omega arith }

new_year-IsDate : IsDate (date 2025 1 1)
unfolding days_in_month is_leap
new_year-IsDate = record { from_1970 = omega arith; month_in = omega arith; day_in = omega arith }

day_of-date_of_example : day_of (date_of 19_782) ≡ 19_782
day_of-date_of_example = day_of-date_of 19_782

months_between-eq-firsts_example : months_between (date 2024 2 29) (date 2025 1 1) ≡ firsts 649 12
months_between-eq-firsts_example =
    months_between-eq-firsts (date 2024 2 29) (date 2025 1 1) leap_day-IsDate new_year-IsDate

-- Noon of the leap day.
abbrev noon : ℕ
noon = 19_782 * day_ms + 43_200_000

fold_start_lem_example :
    (fold_start noon ≤ noon)
    × (noon < fold_start noon + 31 * day_ms)
    × (fold_start (fold_start noon) ≡ fold_start noon)
    × (fold_start 1_700_000_000_000 ≤ fold_start noon)
    × ((fold_start 1_700_000_000_000 == fold_start noon)
        ≡ (date_of 19_675).year == (date_of 19_782).year
          && (date_of 19_675).month == (date_of 19_782).month)
fold_start_lem_example = fold_start_lem 1_700_000_000_000 noon (omega arith)

fold_start-month_bounds_example :
    let bounds = month_bounds (date_of 19_782) in
    (fold_start noon ≡ bounds.0) × (bounds.0 ≤ noon) × (noon < bounds.1)
fold_start-month_bounds_example = fold_start-month_bounds noon
