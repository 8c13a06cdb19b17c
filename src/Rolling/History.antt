-- ===== src/Rolling/History.antt =====
-- `RollingFundingModel`: the deque of observations, `update` and `_selection`.
-- The oldest row comes first. A cutoff before the epoch drops nothing, as a negative one.
use perpetuals_carry_strateg.Base.{
  ℕ, ◌+◌, ◌-◌, ◌*◌, Bool, false, not, ◌||◌, Option, none, some, List, [], ◌∷◌, ◌++◌, ltb, leb, ◌==◌,
  if◌then◌else◌,
}
use perpetuals_carry_strateg.Base.Lists.{length, get_last?}
use perpetuals_carry_strateg.Base.Result.{Result, ok, err, Error, raise_if, ◌>>◌}
use perpetuals_carry_strateg.Number.{Number, ◌⊘◌, ◌≺◌, number_of, is_finite, absolute}
use perpetuals_carry_strateg.Carry.Decide.{hour_ms, jitter_ms}

abbrev pub day_ms : ℕ
day_ms = 86_400_000

-- `_integer`
unfoldable pub at_least : ℕ → ℕ → Result (Unit {0})
at_least value minimum = do raise_if (ltb value minimum) Error.funding_history_error; ok tt

pub record Row (F : Type 0) : Type 0 where
  pub time : ℕ
  pub rate : F
  pub hours : ℕ

pub record RollingFundingModel (F : Type 0) : Type 0 where
  pub rolling_days : ℕ
  pub min_settlements : ℕ
  pub history : List (Row F)
  pub cadence_resets : ℕ

-- `abs(a - b)`
abbrev pub apart : ℕ → ℕ → ℕ
apart a b = (a - b) + (b - a)

module _ {F : Type 0} where
  -- `RollingFundingModel.__init__`
  unfoldable pub create : ℕ → ℕ → Result (RollingFundingModel F)
  unfolding at_least
  create rolling_days min_settlements = do
    at_least rolling_days 1
    at_least min_settlements 3
    ok (record {
      rolling_days = rolling_days;
      min_settlements = min_settlements;
      history = [];
      cadence_resets = 0;
    })

  -- `while history[0][0] < cutoff: history.popleft()`
  unfoldable pub drop_before : ℕ → List (Row F) → List (Row F)
  drop_before cutoff [] = []
  drop_before cutoff (row ∷ rows) =
      let rest = drop_before cutoff rows in if ltb row.time cutoff then rest else row ∷ rows

  -- `[row for row in history if row[0] >= cutoff]`
  unfoldable pub rows_from : ℕ → List (Row F) → List (Row F)
  rows_from cutoff [] = []
  rows_from cutoff (row ∷ rows) =
      let rest = rows_from cutoff rows in if leb cutoff row.time then row ∷ rest else rest

  -- The tests of `update` against the newest row.
  unfoldable pub check_follows : Option (Row F) → ℕ → ℕ → Result (Unit {0})
  check_follows none time hours = ok tt
  check_follows (some previous) time hours = do
    raise_if (leb time previous.time) Error.funding_history_error
    raise_if (ltb jitter_ms (apart (time - previous.time) (hours * hour_ms)))
        Error.funding_history_error
    ok tt

  -- Whether the funding interval differs from that of the newest row.
  abbrev pub resets : Option (Row F) → ℕ → Bool
  resets none hours = false
  resets (some previous) hours = not (hours == previous.hours)

  -- The model that `update` leaves behind.
  unfoldable pub admitted : RollingFundingModel F → Row F → RollingFundingModel F
  unfolding drop_before
  admitted m row =
      let reset = resets (get_last? m.history) row.hours in
      let kept : List (Row F) = if reset then [] else m.history in
      record m {
        history = drop_before (row.time - m.rolling_days * day_ms) (kept ++ row ∷ []);
        cadence_resets = if reset then m.cadence_resets + 1 else m.cadence_resets;
      }

  -- `RollingFundingModel._selection`: the decision time and the rows of its window.
  unfoldable pub select_at : RollingFundingModel F → Row F → ℕ → Result (ℕ × List (Row F))
  unfolding rows_from
  select_at m latest decision = do
    raise_if (ltb decision latest.time) Error.funding_history_error
    raise_if (ltb (latest.hours * hour_ms + jitter_ms) (decision - latest.time))
        Error.funding_model_unavailable
    let selected = rows_from (decision - m.rolling_days * day_ms) m.history
    raise_if (ltb (length selected) m.min_settlements) Error.funding_model_unavailable
    ok (decision, selected)

  abbrev pub decision_time : Option ℕ → Row F → ℕ
  decision_time none latest = latest.time
  decision_time (some as_of) latest = as_of

  unfoldable pub select_from :
      RollingFundingModel F → Option ℕ → Option (Row F) → Result (ℕ × List (Row F))
  unfolding select_at
  select_from m as_of none = err Error.funding_model_unavailable
  select_from m as_of (some latest) = select_at m latest (decision_time as_of latest)

  unfoldable pub selection : RollingFundingModel F → Option ℕ → Result (ℕ × List (Row F))
  unfolding select_from
  selection m as_of = select_from m as_of (get_last? m.history)

module _ {F : Type 0} ⦃n : Number F⦄ where
  -- The tests of `update` on its arguments; the bound on the rate is 0.05.
  unfoldable pub check_row : Row F → Result (Unit {0})
  unfolding at_least
  check_row row = do
    at_least row.time 0
    at_least row.hours 1
    raise_if
        (ltb 24 row.hours
          || (not (is_finite row.rate) || number_of 5 ⊘ number_of 100 ≺ absolute row.rate))
        Error.funding_history_error
    ok tt

  -- `RollingFundingModel.update`: where it raises, the caller keeps the model it had.
  unfoldable pub update : RollingFundingModel F → Row F → Result (RollingFundingModel F)
  unfolding check_row check_follows admitted
  update m row = do
    check_row row
    check_follows (get_last? m.history) row.time row.hours
    ok (admitted m row)
