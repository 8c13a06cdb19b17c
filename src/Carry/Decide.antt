-- ===== src/Carry/Decide.antt =====
-- `CarryStrategy.decide`.
use perpetuals_carry_strateg.Base.{
  ℕ, ◌+◌, ◌-◌, ◌*◌, String, Bool, true, false, not, ◌&&◌, ◌||◌, Option, none, some, List, map, ltb,
  leb, ◌==◌, if◌then◌else◌,
}
use perpetuals_carry_strateg.Base.Lists.{length, all, any}
use perpetuals_carry_strateg.Base.Text.{str_eq}
use perpetuals_carry_strateg.Base.Result.{Result, ok, Error, raise_if, ◌>>◌}
use perpetuals_carry_strateg.Number.{Number, ◌⊕◌, ◌⊖◌, ◌≺◌, ◌≼◌, ◌≗◌, nought, is_finite}
use perpetuals_carry_strateg.Checks.{integer}
use perpetuals_carry_strateg.Carry.Types.{
  Numpy, Policy, Position, FundingApproval, CumulativeFundingForecast, FundingForecast,
  is_synthetic, CostEstimate,
}

abbrev pub hour_ms : ℕ
hour_ms = 3_600_000

abbrev pub jitter_ms : ℕ
jitter_ms = 5000

pub data Action : Type 0 where
  wait enter hold exit : Action

pub data Reason : Type 0 where
  horizon_complete funding_unavailable invalid_funding_forecast cadence_changed : Reason
  funding_not_admitted costs_unavailable costs_not_admitted nonfinite_expected_edge : Reason
  nonpositive_expected_edge probability_below_threshold positive_cost_adjusted_edge : Reason
  -- of python/perpcarry/strategy/sizing.py
  sizing_inputs_not_admitted no_executable_size nonfinite_impact_coefficient : Reason
  nonfinite_expected_profit nonpositive_expected_profit : Reason
  -- of python/perpcarry/strategy/walk_forward.py
  market_evidence_unavailable capital_unavailable actual_fill_capital_unavailable : Reason

pub record Decision (F : Type 0) : Type 0 where
  pub action : Action
  pub reason : Reason
  pub probability : Option F
  pub expected_incremental_fraction : Option F

-- `Decision(action, reason)`
abbrev pub plain : {F : Type 0} → Action → Reason → Decision F
plain action reason = record {
  action = action;
  reason = reason;
  probability = none;
  expected_incremental_fraction = none;
}

-- `Decision(action, reason, probability, edge)`
abbrev pub measured : {F : Type 0} → F → F → Action → Reason → Decision F
measured probability edge action reason = record {
  action = action;
  reason = reason;
  probability = some probability;
  expected_incremental_fraction = some edge;
}

pub record CarryStrategy (F : Type 0) : Type 0 where
  pub symbol : String
  pub policy : Policy F

-- The action where an input is missing, and the one where all is well.
abbrev pub blocked : {F : Type 0} → Option (Position F) → Action
blocked none = Action.wait
blocked (some position) = Action.exit

abbrev pub go_on : {F : Type 0} → Option (Position F) → Action
go_on none = Action.enter
go_on (some position) = Action.hold

module _ {F : Type 0} where
  -- A held position whose funding interval is not that of the forecast.
  abbrev pub changed_cadence : Option (Position F) → CumulativeFundingForecast F → Bool
  changed_cadence none forecast = false
  changed_cadence (some position) forecast =
      not (forecast.interval_hours == position.interval_hours)

  -- The test of `decide` on the approval.
  unfoldable pub approval_missing :
      String → ℕ → ℕ → FundingForecast F → Option FundingApproval → Bool
  approval_missing symbol now_ms remaining forecast none = true
  approval_missing symbol now_ms remaining forecast (some approval) =
      not approval.approved
      || (not (str_eq approval.symbol symbol)
          || (not (str_eq approval.model_sha256 forecast.model_sha256)
              || (not (any (λ h. remaining == h) approval.horizons)
                  || (not (approval.interval_hours == forecast.prediction.interval_hours)
                      || (ltb now_ms approval.validation_end_exclusive_ms
                          || leb approval.valid_until_ms now_ms)))))

module _ {F : Type 0} ⦃n : Number F⦄ where
  -- The test of `decide` on the forecast's samples and times.
  unfoldable pub invalid_forecast : ℕ → ℕ → CumulativeFundingForecast F → Bool
  invalid_forecast now_ms remaining forecast =
      ltb (length forecast.samples) 2
      || (not (all is_finite forecast.samples)
          || (not (forecast.as_of == now_ms)
              || (ltb now_ms forecast.last_observation_time
                  || (ltb (forecast.interval_hours * hour_ms + jitter_ms)
                        (now_ms - forecast.last_observation_time)
                      || (ltb forecast.last_observation_time forecast.training_first_time
                          || (not (forecast.horizon_settlements == remaining)
                              || (not (
                                    leb 1 forecast.interval_hours && leb forecast.interval_hours 24)
                                  || ltb forecast.training_settlements 3)))))))

  abbrev pub other_notional : Option (Position F) → CostEstimate F → Bool
  other_notional none costs = false
  other_notional (some position) costs = not (costs.notional_usdt ≗ position.notional_usdt)

  -- The test of `decide` on the costs.
  unfoldable pub costs_refused :
      CarryStrategy F → ℕ → ℕ → Option (Position F) → CostEstimate F → Bool
  costs_refused s now_ms remaining position costs =
      not (str_eq costs.symbol s.symbol)
      || (not (costs.horizon_settlements == remaining)
          || (ltb now_ms costs.quoted_at_ms
              || (leb costs.valid_until_ms now_ms
                  || (ltb now_ms costs.evidence_end_exclusive_ms
                      || ((is_synthetic costs.kind && not s.policy.allow_synthetic_costs)
                          || other_notional position costs)))))

  -- What the funding has to exceed, and how likely that has to be.
  unfoldable pub hurdle : Option (Position F) → CostEstimate F → F
  hurdle none costs =
      costs.entry_fraction ⊕ costs.terminal_close_fraction ⊕ costs.financing_fraction
  hurdle (some position) costs =
      costs.terminal_close_fraction ⊖ costs.close_now_fraction ⊕ costs.financing_fraction

  abbrev pub threshold : Policy F → Option (Position F) → F
  threshold policy none = policy.entry_probability
  threshold policy (some position) = policy.continuation_probability

module _ {F : Type 0} ⦃n : Number F⦄ ⦃np : Numpy F⦄ where
  abbrev pub probability_above : List F → F → F
  probability_above samples bar = np.share (map (λ x. bar ≺ x) samples)

  abbrev pub edge_over : List F → F → F
  edge_over samples bar = np.mean samples ⊖ bar

  -- The verdict on samples against a hurdle, once all inputs are admitted.
  unfoldable pub weigh : Policy F → Option (Position F) → List F → F → Decision F
  weigh policy position samples bar =
      let probability = probability_above samples bar in
      let edge = edge_over samples bar in
      if not (is_finite edge)
      then plain (blocked position) Reason.nonfinite_expected_edge
      else if edge ≼ nought
      then measured probability edge (blocked position) Reason.nonpositive_expected_edge
      else if probability ≼ threshold policy position
      then measured probability edge (blocked position) Reason.probability_below_threshold
      else measured probability edge (go_on position) Reason.positive_cost_adjusted_edge

  unfoldable pub weigh_costs :
      CarryStrategy F → ℕ → ℕ → Option (Position F) → List F → Option (CostEstimate F) → Decision F
  unfolding weigh costs_refused
  weigh_costs s now_ms remaining position samples none =
      plain (blocked position) Reason.costs_unavailable
  weigh_costs s now_ms remaining position samples (some costs) =
      if costs_refused s now_ms remaining position costs
      then plain (blocked position) Reason.costs_not_admitted
      else weigh s.policy position samples (hurdle position costs)

  unfoldable pub assess :
      CarryStrategy F
      → ℕ
      → ℕ
      → Option (FundingForecast F)
      → Option (CostEstimate F)
      → Option FundingApproval
      → Option (Position F)
      → Decision F
  unfolding weigh_costs invalid_forecast approval_missing
  assess s now_ms remaining none costs approval position =
      plain (blocked position) Reason.funding_unavailable
  assess s now_ms remaining (some forecast) costs approval position =
      if not (str_eq forecast.symbol s.symbol)
      then plain (blocked position) Reason.invalid_funding_forecast
      else if changed_cadence position forecast.prediction
      then plain Action.exit Reason.cadence_changed
      else if invalid_forecast now_ms remaining forecast.prediction
      then plain (blocked position) Reason.invalid_funding_forecast
      else if approval_missing s.symbol now_ms remaining forecast approval
      then plain (blocked position) Reason.funding_not_admitted
      else weigh_costs s now_ms remaining position forecast.prediction.samples costs

  -- `CarryStrategy.decide`
  unfoldable pub decide :
      CarryStrategy F
      → ℕ
      → Option (FundingForecast F)
      → Option (CostEstimate F)
      → Option FundingApproval
      → Option (Position F)
      → Result (Decision F)
  unfolding integer assess
  decide s now_ms forecast costs approval none = do
    integer now_ms 0
    ok (assess s now_ms s.policy.horizon_settlements forecast costs approval none)
  decide s now_ms forecast costs approval (some position) = do
    integer now_ms 0
    raise_if (not (str_eq position.symbol s.symbol) || ltb now_ms position.opened_at_ms)
        Error.value_error
    let remaining = position.planned_settlements - position.settlements_held
    if remaining == 0
        then ok (plain Action.exit Reason.horizon_complete)
        else ok (assess s now_ms remaining forecast costs approval (some position))
