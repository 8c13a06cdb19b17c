-- ===== src/Carry/Evidence.antt =====
-- What a decision to enter or to hold rests on.
use text.Mathlib.TextEquality.{eq_iff}
use perpetuals_carry_strateg.Base.{
  ℕ, ◌+◌, ◌*◌, ◌-◌, ◌≤◌, ◌<◌, refl, String, true, false, Option, none, some, List, ◌≡◌, ◌⊎◌, arith,
  ◌==◌,
}
use perpetuals_carry_strateg.Base.Lists.{length, any, all}
use perpetuals_carry_strateg.Number.{Number, ◌≼◌, nought, is_finite}
use perpetuals_carry_strateg.Carry.Types.{
  Numpy, Policy, Position, FundingApproval, CumulativeFundingForecast, FundingForecast,
  CostEstimate, is_synthetic,
}
use perpetuals_carry_strateg.Carry.Decide.{
  hour_ms, jitter_ms, CarryStrategy, blocked, go_on, approval_missing, invalid_forecast,
  costs_refused, hurdle, threshold, probability_above, edge_over, weigh, changed_cadence,
  other_notional,
}

-- Of how many settlements the funding counts.
abbrev pub remaining_of : {F : Type 0} → CarryStrategy F → Option (Position F) → ℕ
remaining_of s none = s.policy.horizon_settlements
remaining_of s (some position) = position.planned_settlements - position.settlements_held

-- A position that is held has settlements left.
abbrev pub IsUnfinished : {F : Type 0} → Option (Position F) → Type 0
IsUnfinished none = Unit {0}
IsUnfinished (some position) = 0 < position.planned_settlements - position.settlements_held

-- An approval in force at the time, for the model and the horizon.
pub record Approves {F : Type 0} (symbol : String) (now remaining : ℕ) (f : FundingForecast F)
    (a : FundingApproval) : Type 0 where
  pub approved : a.approved ≡ true
  pub same_symbol : a.symbol ≡ symbol
  pub same_model : a.model_sha256 ≡ f.model_sha256
  pub same_interval : a.interval_hours ≡ f.prediction.interval_hours
  pub in_scope : any (λ h. remaining == h) a.horizons ≡ true
  pub validated_before : a.validation_end_exclusive_ms ≤ now
  pub in_force : now < a.valid_until_ms

-- A forecast made now, of recent observations up to now: at least two finite samples, from at least
-- three settlements at most a day apart.
pub record Forecasts {F : Type 0} ⦃n : Number F⦄ (now remaining : ℕ)
    (f : CumulativeFundingForecast F) : Type 0 where
  pub made_now : f.as_of ≡ now
  pub observed_before : f.last_observation_time ≤ now
  pub recent : now - f.last_observation_time ≤ f.interval_hours * hour_ms + jitter_ms
  pub trained_before : f.training_first_time ≤ f.last_observation_time
  pub same_horizon : f.horizon_settlements ≡ remaining
  pub interval : (1 ≤ f.interval_hours) × (f.interval_hours ≤ 24)
  pub trained : 3 ≤ f.training_settlements
  pub sampled : 2 ≤ length f.samples
  pub finite : all is_finite f.samples ≡ true

-- A quote in force, on evidence that ended before now, and of the size of the position.
pub record Prices {F : Type 0} ⦃n : Number F⦄ (s : CarryStrategy F) (now remaining : ℕ)
    (position : Option (Position F)) (c : CostEstimate F) : Type 0 where
  pub same_symbol : c.symbol ≡ s.symbol
  pub same_horizon : c.horizon_settlements ≡ remaining
  pub quoted_before : c.quoted_at_ms ≤ now
  pub in_force : now < c.valid_until_ms
  pub evidence_before : c.evidence_end_exclusive_ms ≤ now
  pub same_size : other_notional position c ≡ false
  pub calibrated : (is_synthetic c.kind ≡ false) ⊎ (s.policy.allow_synthetic_costs ≡ true)

module _ {F : Type 0} ⦃n : Number F⦄ ⦃np : Numpy F⦄ where
  -- The mean funding is above the costs, and likely enough to be.
  pub record Pays (policy : Policy F) (position : Option (Position F)) (samples : List F) (bar : F)
      : Type 0 where
    pub finite : is_finite (edge_over samples bar) ≡ true
    pub profitable : (edge_over samples bar ≼ nought) ≡ false
    pub likely : (probability_above samples bar ≼ threshold policy position) ≡ false

  pub record Grounds (s : CarryStrategy F) (now : ℕ) (forecast : Option (FundingForecast F))
      (costs : Option (CostEstimate F)) (approval : Option FundingApproval)
      (position : Option (Position F)) : Type 0 where
    pub f : FundingForecast F
    pub c : CostEstimate F
    pub a : FundingApproval
    pub given_f : forecast ≡ some f
    pub given_c : costs ≡ some c
    pub given_a : approval ≡ some a
    pub same_symbol : f.symbol ≡ s.symbol
    pub same_cadence : changed_cadence position f.prediction ≡ false
    pub unfinished : IsUnfinished position
    pub approves : Approves s.symbol now (remaining_of s position) f a
    pub forecasts : Forecasts now (remaining_of s position) f.prediction
    pub prices : Prices s now (remaining_of s position) position c
    pub pays : Pays s.policy position f.prediction.samples (hurdle position c)

  pub go_on-ne-blocked : (position : Option (Position F)) → go_on position ≡ blocked position → ⊥
  go_on-ne-blocked none h = cc
  go_on-ne-blocked (some p) h = cc

  pub weigh-Pays :
      (policy : Policy F) (position : Option (Position F)) (samples : List F) (bar : F)
      → (weigh policy position samples bar).action ≡ go_on position
      → Pays policy position samples bar
  unfolding weigh
  weigh-Pays policy position samples bar h = ground (arith, go_on-ne-blocked position)

  pub Approves-of :
      (symbol : String) (now remaining : ℕ) (f : FundingForecast F) (a : FundingApproval)
      → approval_missing symbol now remaining f (some a) ≡ false
      → Approves symbol now remaining f a
  unfolding approval_missing
  Approves-of symbol now remaining f a h =
      ground (arith, eq_iff a.symbol symbol, eq_iff a.model_sha256 f.model_sha256)

  pub Forecasts-of :
      (now remaining : ℕ) (f : CumulativeFundingForecast F)
      → invalid_forecast now remaining f ≡ false
      → Forecasts now remaining f
  unfolding invalid_forecast
  Forecasts-of now remaining f h = ground arith

  pub Prices-of :
      (s : CarryStrategy F) (now remaining : ℕ) (position : Option (Position F))
      (c : CostEstimate F)
      → costs_refused s now remaining position c ≡ false
      → Prices s now remaining position c
  unfolding costs_refused
  Prices-of s now remaining position c h = ground (arith, eq_iff c.symbol s.symbol)

  -- Conversely, each of them passes its test.
  pub weigh-of :
      (policy : Policy F) (position : Option (Position F)) (samples : List F) (bar : F)
      → Pays policy position samples bar
      → (weigh policy position samples bar).action ≡ go_on position
  unfolding weigh
  weigh-of policy position samples bar p = rw (p.finite, p.profitable, p.likely) refl

  pub approval-of :
      (symbol : String) (now remaining : ℕ) (f : FundingForecast F) (a : FundingApproval)
      → Approves symbol now remaining f a
      → approval_missing symbol now remaining f (some a) ≡ false
  unfolding approval_missing
  approval-of symbol now remaining f a p =
      ground (arith, eq_iff a.symbol symbol, eq_iff a.model_sha256 f.model_sha256)

  pub forecast-of :
      (now remaining : ℕ) (f : CumulativeFundingForecast F)
      → Forecasts now remaining f
      → invalid_forecast now remaining f ≡ false
  unfolding invalid_forecast
  forecast-of now remaining f p = ground arith

  pub costs-of :
      (s : CarryStrategy F) (now remaining : ℕ) (position : Option (Position F))
      (c : CostEstimate F)
      → Prices s now remaining position c
      → costs_refused s now remaining position c ≡ false
  unfolding costs_refused
  costs-of s now remaining position c p = ground (arith, eq_iff c.symbol s.symbol)
