-- ===== src/Calendar.antt =====
-- Months in UTC: python/perpcarry/ingestion/calendar.py, `fold_start` of
-- python/perpcarry/strategy/walk_forward.py and `utc_ms` of
-- python/perpcarry/ingestion/funding_series.py.
--
-- The dates are those of Python's `datetime` and `calendar`, from 1970 on. A day is the number of
-- days since January 1st, 1970, and a month the number of months since January 1970.
pub mod Months
pub mod Folds
mod Examples
use perpetuals_carry_strateg.Base.{
  ℕ, zero, suc, ◌+◌, ◌-◌, ◌*◌, ◌/◌, ◌%◌, Bool, true, false, not, ◌||◌, List, [], ◌∷◌, ltb, leb,
  ◌==◌, if◌then◌else◌,
}
use perpetuals_carry_strateg.Rolling.History.{day_ms}

pub record Date : Type 0 where
  pub year : ℕ
  pub month : ℕ
  pub day : ℕ

unfoldable pub is_leap : ℕ → Bool
is_leap y = if y % 400 == 0 then true else if y % 100 == 0 then false else y % 4 == 0

-- `calendar.monthrange(year, month)[1]`
unfoldable pub days_in_month : ℕ → ℕ → ℕ
unfolding is_leap
days_in_month y m =
    if m == 2
    then (if is_leap y then 29 else 28)
    else if m == 4 || (m == 6 || (m == 9 || m == 11))
    then 30
    else 31

unfoldable pub month_length : ℕ → ℕ
unfolding days_in_month
month_length k = days_in_month (1970 + k / 12) (k % 12 + 1)

-- The first day of a month.
unfoldable pub month_start : ℕ → ℕ
unfolding month_length
month_start zero = 0
month_start (suc k) = month_start k + month_length k

-- The month that lies a number of days after the start of another, and the days into it.
unfoldable pub month_from : ℕ → ℕ → ℕ → ℕ × ℕ
unfolding month_length
month_from zero k d = (k, d)
month_from (suc fuel) k d = elim (ltb d (month_length k)) [
  | true ↦ (k, d)
  | false ↦ month_from fuel (suc k) (d - month_length k)
]

-- The month of a day, and the days into it.
unfoldable pub month_of : ℕ → ℕ × ℕ
unfolding month_from
month_of d = month_from d 0 d

-- The date of a day.
unfoldable pub date_of : ℕ → Date
unfolding month_of
date_of d =
    let (k, into) = month_of d in
    record { year = 1970 + k / 12; month = k % 12 + 1; day = into + 1 }

abbrev pub month_index : Date → ℕ
month_index t = (t.year - 1970) * 12 + (t.month - 1)

-- The day of a date.
unfoldable pub day_of : Date → ℕ
unfolding month_start
day_of t = month_start (month_index t) + (t.day - 1)

-- `utc_ms`
unfoldable pub utc_ms : Date → ℕ
unfolding day_of
utc_ms t = day_of t * day_ms

-- `fold_start`: the date of the time, with the day set to 1 and the time of day to 0.
unfoldable pub fold_start : ℕ → ℕ
unfolding date_of utc_ms
fold_start time_ms = utc_ms (record (date_of (time_ms / day_ms)) { day = 1 })

-- `(cursor.replace(day=28) + dt.timedelta(days=4)).replace(day=1)`
unfoldable pub next_month : Date → Date
unfolding date_of day_of
next_month cursor = record (date_of (day_of (record cursor { day = 28 }) + 4)) { day = 1 }

-- The loop of `months_between`, `while cursor <= end`; dates are compared by their days.
unfoldable pub months_from : ℕ → Date → Date → List Date
unfolding next_month day_of
months_from zero cursor end = []
months_from (suc fuel) cursor end = elim (leb (day_of cursor) (day_of end)) [
  | true ↦ cursor ∷ months_from fuel (next_month cursor) end
  | false ↦ []
]

-- `months_between`: the fuel is the days up to the end, of which each round passes 28 at least.
unfoldable pub months_between : Date → Date → List Date
unfolding months_from day_of
months_between start end = months_from (suc (day_of end)) (record start { day = 1 }) end

-- `month_bounds`
unfoldable pub month_bounds : Date → ℕ × ℕ
unfolding utc_ms days_in_month
month_bounds month =
    let start = utc_ms (record month { day = 1 }) in
    (start, start + days_in_month month.year month.month * day_ms)
