-- ===== src/Carry/Examples.antt =====
-- Decisions on the sample inputs: one that enters, and what stops it.
use perpetuals_carry_strateg.Base.{none, some, ◌≡◌, refl, ◌⊎◌, ◌↔◌}
use perpetuals_carry_strateg.Base.Result.{ok}
use perpetuals_carry_strateg.Number.Points.{
  Points, points_number, whole_number, plus, opposite, over,
}
use perpetuals_carry_strateg.Carry.Types.{
  CostEstimate, CostKind, check_policy, check_approval, check_forecast, check_estimate,
}
use perpetuals_carry_strateg.Carry.Decide.{
  Action, Reason, Decision, plain, measured, decide, hurdle,
}
use perpetuals_carry_strateg.Carry.Evidence.{Grounds}
use perpetuals_carry_strateg.Carry.Grounds.{decide-Grounds, decide_closed}
use perpetuals_carry_strateg.Checks.{integer, number}
use perpetuals_carry_strateg.Base.Text.{is_digest}
use perpetuals_carry_strateg.Carry.Samples.{
  points_numpy, in_points, policy, strategy, now, forecast, approval, costs,
}

inputs_checked :
    (check_policy policy ≡ ok policy)
    × (check_approval approval ≡ ok approval)
    × (check_forecast forecast ≡ ok forecast)
    × (check_estimate costs ≡ ok costs)
unfolding check_policy check_approval check_forecast check_estimate integer number is_digest
inputs_checked = (refl, refl, refl, refl)

abbrev entered : Decision Points
entered = measured (whole_number 1) (in_points 22) Action.enter Reason.positive_cost_adjusted_edge

enters : decide strategy now (some forecast) (some costs) (some approval) none ≡ ok entered
unfolding decide hurdle plus opposite over
enters = refl

-- Costs that only a synthetic calibration supports.
abbrev synthetic_costs : CostEstimate Points
synthetic_costs = record costs { kind = CostKind.synthetic }

waits :
    decide strategy now (some forecast) (some synthetic_costs) (some approval) none
    ≡ ok (plain Action.wait Reason.costs_not_admitted)
unfolding decide
waits = refl

decide-Grounds_example :
    (entered.action ≡ Action.enter)
    ↔ Grounds strategy now (some forecast) (some costs) (some approval) none
decide-Grounds_example =
    decide-Grounds strategy now (some forecast) (some costs) (some approval) none enters

decide_closed_example :
    (◌≡◌ {A = Action} Action.wait Action.wait)
    ⊎ Grounds strategy now (some forecast) (some synthetic_costs) (some approval) none
decide_closed_example =
    decide_closed strategy now (some forecast) (some synthetic_costs) (some approval) none waits
