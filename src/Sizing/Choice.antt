-- ===== src/Sizing/Choice.antt =====
-- `size_position`: the choice among the lots that the gate passes, and its result.
use perpetuals_carry_strateg.Base.{
  ℕ, ◌+◌, Bool, true, Option, none, some, List, [], ◌∷◌, ◌++◌, ltb, ◌==◌, if◌then◌else◌,
}
use perpetuals_carry_strateg.Base.Result.{Result, ok, err, Error, ◌>>=◌}
use perpetuals_carry_strateg.Number.{
  Number, Conversions, ◌⊗◌, ◌⊘◌, ◌≺◌, ◌≗◌, nought, number_of, is_finite, square_root,
}
use perpetuals_carry_strateg.Carry.Types.{Numpy, FundingForecast}
use perpetuals_carry_strateg.Carry.Decide.{Decision, Action, Reason, plain}
use perpetuals_carry_strateg.Costs.{ImpactCurve}
use perpetuals_carry_strateg.Sizing.{SizingResult, RootStatus, Limit}
use perpetuals_carry_strateg.Sizing.Market.{
  max_int, min_int, Candidate, Quote, adv, price, support_limit, depth_limit, adv_limit,
  notional_limit, upper, quote,
}

pub record Best (D F : Type 0) : Type 0 where
  pub profit : F
  pub at : Quote D F

-- What the loop over the candidates comes to: a profit that is not finite ends it.
pub data Outcome (D F : Type 0) : Type 0 where
  unusable : Outcome D F
  reached : Option (Best D F) → Outcome D F

-- The samples that `forecast.prediction.samples` reads; a missing forecast raises.
unfoldable pub samples_of : {F : Type 0} → Option (FundingForecast F) → Result (List F)
samples_of none = err Error.type_error
samples_of (some forecast) = ok forecast.prediction.samples

-- `decision.expected_incremental_fraction` as a factor; None raises.
unfoldable pub factor_of : {F : Type 0} → Option F → Result F
factor_of none = err Error.type_error
factor_of (some x) = ok x

module _ {F : Type 0} ⦃n : Number F⦄ where
  -- `1.5 * coefficient`
  abbrev pub half_more : F → F
  half_more coefficient = number_of 3 ⊘ number_of 2 ⊗ coefficient

  -- `x ** 2`
  abbrev pub squared : F → F
  squared x = x ⊗ x

  -- The break-even participation and its status.
  unfoldable pub root_of : ImpactCurve F → F → F → Option F × RootStatus
  root_of curve edge coefficient =
      if coefficient ≗ nought
      then (none, RootStatus.no_finite_root)
      else if edge ≺ coefficient ⊗ square_root curve.size_min
      then (none, RootStatus.below_support)
      else if coefficient ⊗ square_root curve.size_max ≺ edge
      then (none, RootStatus.above_support)
      else (some (squared (edge ⊘ coefficient)), RootStatus.within_support)

  -- A root's notional that is not finite is dropped.
  abbrev pub if_finite : F → Option F
  if_finite x = if is_finite x then some x else none

module _ {D F : Type 0} ⦃d : Number D⦄ ⦃n : Number F⦄ where
  -- `empty(reason, decision)`
  abbrev pub empty_with : Decision F → SizingResult D F
  empty_with decision = record {
    quantity_base = nought;
    notional_usdt = nought;
    adv_fraction = nought;
    expected_net_usdt = nought;
    marginal_net_fraction = none;
    decision = decision;
    cost_estimate = none;
    feasible_max_adv_fraction = none;
    break_even_adv_fraction = none;
    break_even_status = RootStatus.unavailable;
    binding_limits = [];
    feasible_max_notional_usdt = none;
    break_even_notional_usdt = none;
  }

  -- `empty(reason)`
  abbrev pub empty : Reason → SizingResult D F
  empty reason = empty_with (plain Action.wait reason)

module _ {D F : Type 0} ⦃d : Number D⦄ ⦃v : Conversions D F⦄ where
  abbrev pub label : Candidate D F → Limit → D → List Limit
  label c name bound = if bound ≗ upper c then name ∷ [] else []

  -- The limits that bind.
  unfoldable pub labels : Candidate D F → ℕ → ℕ → List Limit
  unfolding upper
  labels c feasible_last last =
      if ltb feasible_last last
      then Limit.entry_gate ∷ []
      else label c Limit.model_support (support_limit c)
        ++ label c Limit.validated_depth (depth_limit c)
        ++ label c Limit.max_adv (adv_limit c)
        ++ label c Limit.max_notional (notional_limit c)

  -- `float(Decimal(str(root)) * adv * price)`
  unfoldable pub notional_of : ⦃n : Number F⦄ → Candidate D F → Option F → Option F
  notional_of c none = none
  notional_of c (some root) = if_finite (v.to_float (v.to_decimal root ⊗ adv c ⊗ price c))

-- The one or two lots around the target, within the feasible ones.
unfoldable pub candidates : ℕ → ℕ → ℕ → List ℕ
candidates first feasible_last target =
    let a = max_int first (min_int feasible_last target) in
    let b = max_int first (min_int feasible_last (target + 1)) in
    if a == b then a ∷ [] else a ∷ b ∷ []

module _ {D F : Type 0} ⦃d : Number D⦄ ⦃n : Number F⦄ ⦃v : Conversions D F⦄ ⦃np : Numpy F⦄ where
  -- `best is None or profit > best[0]`
  abbrev pub better : Option (Best D F) → F → Bool
  better none profit = true
  better (some best) profit = best.profit ≺ profit

  -- The loop over the candidates.
  unfoldable pub best_of : Candidate D F → List ℕ → Option (Best D F) → Result (Outcome D F)
  unfolding factor_of
  best_of c [] best = ok (Outcome.reached best)
  best_of c (lots ∷ rest) best = do
    q ← quote c lots
    share ← factor_of q.decision.expected_incremental_fraction
    let profit = q.estimate.notional_usdt ⊗ share
    let next : Option (Best D F) =
        if better best profit then some (record { profit = profit; at = q }) else best
    let others = best_of c rest next
    if is_finite profit then others else ok Outcome.unusable
