-- ===== src/Rolling/Examples.antt =====
-- A model that observes four settlements, of which the first leaves the window, and its forecast.
use perpetuals_carry_strateg.Base.{ℕ, zero, suc, ap, false, ◌*◌, some, List, [], ◌∷◌, ◌≡◌, refl}
use perpetuals_carry_strateg.Base.Lists.{length, get_last?}
use perpetuals_carry_strateg.Base.Text.{sample_digest, is_digest}
use perpetuals_carry_strateg.Base.Result.{Result, ok, err, Error, ok_injective}
use perpetuals_carry_strateg.Number.Points.{Points, points_number, over}
use perpetuals_carry_strateg.Carry.Samples
use perpetuals_carry_strateg.Carry.Samples.{in_points}
use perpetuals_carry_strateg.Carry.Types.{FundingForecast, check_forecast}
use perpetuals_carry_strateg.Carry.Decide.{invalid_forecast}
use perpetuals_carry_strateg.Rolling.History.{Row, RollingFundingModel, create, update, selection}
use perpetuals_carry_strateg.Rolling.Regular.{IsRegular}
use perpetuals_carry_strateg.Rolling.Update.{update-IsRegular}
use perpetuals_carry_strateg.Rolling.Selection.{
  IsSelection, create-IsRegular, selection-IsSelection,
}
use perpetuals_carry_strateg.Rolling.Forecast.{from_model}
use perpetuals_carry_strateg.Rolling.Admissible.{from_model-valid}

-- The hour of a settlement, every eight hours.
abbrev row : ℕ → Row Points
row hour = record { time = hour * 3_600_000; rate = in_points 0; hours = 8 }

abbrev initial : RollingFundingModel Points
initial = record { rolling_days = 1; min_settlements = 3; history = []; cadence_resets = 0 }

initial-IsRegular : IsRegular initial
initial-IsRegular = create-IsRegular 1 3 created
  where
    created : create 1 3 ≡ ok initial
    created = unfold create in refl

abbrev observed : List (Row Points) → RollingFundingModel Points
observed rows = record initial { history = rows }

abbrev three : RollingFundingModel Points
three = observed (row 0 ∷ row 8 ∷ row 16 ∷ [])

first_updated : update initial (row 0) ≡ ok (observed (row 0 ∷ []))
unfolding update over
first_updated = refl

second_updated : update (observed (row 0 ∷ [])) (row 8) ≡ ok (observed (row 0 ∷ row 8 ∷ []))
unfolding update over
second_updated = refl

third_updated : update (observed (row 0 ∷ row 8 ∷ [])) (row 16) ≡ ok three
unfolding update over
third_updated = refl

-- A settlement that is missing is refused, not skipped.
gap_refused :
    update (observed (row 8 ∷ row 16 ∷ row 24 ∷ [])) (row 40) ≡ err Error.funding_history_error
unfolding update over
gap_refused = refl

-- The window of a day: the row at hour 0 has left it at hour 32.
window_moves :
    update (observed (row 0 ∷ row 8 ∷ row 16 ∷ row 24 ∷ [])) (row 32)
    ≡ ok (observed (row 8 ∷ row 16 ∷ row 24 ∷ row 32 ∷ []))
unfolding update over
window_moves = refl

three-IsRegular : IsRegular three
three-IsRegular =
    let one = (update-IsRegular initial (row 0) first_updated initial-IsRegular).0 in
    let two = (update-IsRegular (observed (row 0 ∷ [])) (row 8) second_updated one).0 in
    (update-IsRegular (observed (row 0 ∷ row 8 ∷ [])) (row 16) third_updated two).0

update-IsRegular_example : IsRegular three × (get_last? three.history ≡ some (row 16))
update-IsRegular_example =
    update-IsRegular (observed (row 0 ∷ row 8 ∷ [])) (row 16) third_updated
      (update-IsRegular (observed (row 0 ∷ [])) (row 8) second_updated
        (update-IsRegular initial (row 0) first_updated initial-IsRegular).0).0

abbrev now : ℕ
now = 17 * 3_600_000

selected : selection three (some now) ≡ ok (now, row 0 ∷ row 8 ∷ row 16 ∷ [])
unfolding selection
selected = refl

selection-IsSelection_example : IsSelection three now (row 0 ∷ row 8 ∷ row 16 ∷ [])
selection-IsSelection_example = selection-IsSelection three (some now) selected three-IsRegular

-- Paths that all end at one value.
abbrev repeated : ℕ → List Points
repeated zero = []
repeated (suc k) = in_points 20_000 ∷ repeated k

abbrev level_paths : List (Row Points) → ℕ → ℕ → ℕ → Result (List Points)
level_paths rows horizon draws seed = ok (repeated draws)

length-repeated : (k : ℕ) → length (repeated k) ≡ k
length-repeated zero = refl
length-repeated (suc k) = ap suc (length-repeated k)

as_many_as_draws :
    (rows : List (Row Points)) (horizon draws seed : ℕ) (total : List Points)
    → level_paths rows horizon draws seed ≡ ok total
    → length total ≡ draws
as_many_as_draws rows horizon draws seed total h = rw (← ok_injective h) (length-repeated draws)

forecast : FundingForecast Points
unfolding from_model over selection check_forecast is_digest
forecast = or_sample (from_model level_paths "BTCUSDT" sample_digest three 3 now 2 7)
  where
    or_sample : Result (FundingForecast Points) → FundingForecast Points
    or_sample (ok f) = f
    or_sample (err _) = Samples.forecast

forecast_lem : from_model level_paths "BTCUSDT" sample_digest three 3 now 2 7 ≡ ok forecast
unfolding forecast check_forecast is_digest
forecast_lem = refl

from_model-valid_example :
    (invalid_forecast now 3 forecast.prediction ≡ false)
    × (forecast.symbol ≡ "BTCUSDT")
    × (forecast.model_sha256 ≡ sample_digest)
from_model-valid_example =
    from_model-valid level_paths as_many_as_draws (λ x _. refl) "BTCUSDT" sample_digest three 3 now
      2 7 forecast_lem three-IsRegular
