-- ===== src/Rolling/Forecast.antt =====
-- `RollingFundingModel.predict_cumulative_funding`, and `from_model` of
-- python/perpcarry/strategy/funding.py, which binds a forecast to its symbol and model digest.
--
-- The regression and the sampled paths are NumPy and SciPy code: the parameter `paths` stands for
-- the array `total`, or for the exception that the fit raises.
use perpetuals_carry_strateg.Base.{ℕ, String, not, Option, some, List, ◌∷◌, map}
use perpetuals_carry_strateg.Base.Lists.{length, get_last?, all}
use perpetuals_carry_strateg.Base.Result.{Result, ok, err, Error, raise_if, ◌>>◌, ◌>>=◌}
use perpetuals_carry_strateg.Number.{Number, ◌⊘◌, number_of, is_finite}
use perpetuals_carry_strateg.Carry.Types.{
  CumulativeFundingForecast, FundingForecast, check_forecast,
}
use perpetuals_carry_strateg.Rolling.History.{Row, RollingFundingModel, at_least, selection}

module _ {F : Type 0} where
  -- The forecast from its rows; an empty selection raises, as `selected[-1]` does.
  unfoldable pub describe :
      ℕ → ℕ → ℕ → List F → List (Row F) → Option (Row F) → Result (CumulativeFundingForecast F)
  describe decision horizon seed samples (first ∷ rows) (some newest) = ok (record {
    samples = samples;
    horizon_settlements = horizon;
    interval_hours = newest.hours;
    as_of = decision;
    last_observation_time = newest.time;
    training_first_time = first.time;
    training_settlements = length (first ∷ rows);
    seed = seed;
  })
  describe decision horizon seed samples _ _ = err Error.value_error

module _ {F : Type 0} ⦃n : Number F⦄ where
  -- `tuple((total / 10_000).tolist())`
  abbrev pub in_fractions : List F → List F
  in_fractions total = map (λ x. x ⊘ number_of 10_000) total

module _ {F : Type 0} ⦃n : Number F⦄ (paths : List (Row F) → ℕ → ℕ → ℕ → Result (List F)) where
  -- `predict_cumulative_funding`
  unfoldable pub predict :
      RollingFundingModel F → ℕ → Option ℕ → ℕ → ℕ → Result (CumulativeFundingForecast F)
  unfolding at_least describe
  predict m horizon as_of draws seed = do
    at_least horizon 1
    at_least draws 2
    at_least seed 0
    chosen ← selection m as_of
    total ← paths chosen.1 horizon draws seed
    raise_if (not (all is_finite total)) Error.funding_model_unavailable
    describe chosen.0 horizon seed (in_fractions total) chosen.1 (get_last? chosen.1)

  -- `from_model`, given the digest of the model.
  unfoldable pub from_model :
      String → String → RollingFundingModel F → ℕ → ℕ → ℕ → ℕ → Result (FundingForecast F)
  unfolding predict
  from_model symbol digest m horizon now_ms draws seed = do
    prediction ← predict m horizon (some now_ms) draws seed
    check_forecast (record { symbol = symbol; prediction = prediction; model_sha256 = digest })
