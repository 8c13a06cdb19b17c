-- ===== src/Sizing/Position.antt =====
-- `size_position` itself, in the order of its early returns.
use perpetuals_carry_strateg.Base.{ℕ, ◌-◌, not, ◌||◌, none, some, ltb, if◌then◌else◌}
use perpetuals_carry_strateg.Base.Result.{Result, ok, err, Error, ◌>>=◌, ◌>>◌}
use perpetuals_carry_strateg.Number.{
  Number, Conversions, ◌⊖◌, ◌⊗◌, ◌⊘◌, ◌≼◌, ◌≗◌, nought, is_finite, square_root,
}
use perpetuals_carry_strateg.Checks.{integer}
use perpetuals_carry_strateg.Carry.Types.{Numpy}
use perpetuals_carry_strateg.Carry.Decide.{Reason}
use perpetuals_carry_strateg.Sizing.{SizingResult, fixed_fraction, round_trip_coefficient}
use perpetuals_carry_strateg.Sizing.Search.{search}
use perpetuals_carry_strateg.Sizing.Market.{
  Rounding, Candidate, is_enter, inputs_refused, adv, price, quantity_of, first_lot, last_lot,
  quote, gate,
}
use perpetuals_carry_strateg.Sizing.Choice.{
  Best, Outcome, samples_of, half_more, squared, root_of, empty_with, empty, labels, notional_of,
  candidates, best_of,
}

module _ {D F : Type 0} ⦃d : Number D⦄ ⦃n : Number F⦄ ⦃v : Conversions D F⦄ ⦃r : Rounding D⦄
    ⦃np : Numpy F⦄ where
  abbrev pub max_fraction : Candidate D F → ℕ → F
  max_fraction c feasible_last = v.to_float (quantity_of c feasible_last ⊘ adv c)

  -- The lots of the most profitable size.
  unfoldable pub target_of : Candidate D F → ℕ → F → F → ℕ
  target_of c feasible_last edge coefficient =
      if coefficient ≗ nought
        || half_more coefficient ⊗ square_root (max_fraction c feasible_last) ≼ edge
      then feasible_last
      else r.floor
          (v.to_decimal (squared (edge ⊘ half_more coefficient)) ⊗ adv c ⊘ c.market.quantity_step)

  -- The `SizingResult` at the end of `size_position`.
  unfoldable pub sized : Candidate D F → ℕ → F → F → Best D F → SizingResult D F
  sized c feasible_last edge coefficient best =
      let (root, status) = root_of c.curve edge coefficient in
      record {
        quantity_base = best.at.quantity;
        notional_usdt = best.at.estimate.notional_usdt;
        adv_fraction = best.at.fraction;
        expected_net_usdt = best.profit;
        marginal_net_fraction = some (edge ⊖ half_more coefficient ⊗ square_root best.at.fraction);
        decision = best.at.decision;
        cost_estimate = some best.at.estimate;
        feasible_max_adv_fraction = some (max_fraction c feasible_last);
        break_even_adv_fraction = root;
        break_even_status = status;
        binding_limits = labels c feasible_last (last_lot c);
        feasible_max_notional_usdt = some (v.to_float (quantity_of c feasible_last ⊗ price c));
        break_even_notional_usdt = notional_of c root;
      }

  -- What the best candidate comes to; without a candidate, unpacking None raises.
  unfoldable pub conclude : Candidate D F → ℕ → F → F → Outcome D F → Result (SizingResult D F)
  unfolding sized
  conclude c feasible_last edge coefficient Outcome.unusable =
      ok (empty Reason.nonfinite_expected_profit)
  conclude c feasible_last edge coefficient (Outcome.reached none) = err Error.type_error
  conclude c feasible_last edge coefficient (Outcome.reached (some best)) =
      if best.profit ≼ nought
      then ok (empty Reason.nonpositive_expected_profit)
      else ok (sized c feasible_last edge coefficient best)

  -- What the most profitable candidate comes to, given the mean of the forecast's samples.
  unfoldable pub choose_by_mean : Candidate D F → ℕ → F → Result (SizingResult D F)
  unfolding candidates conclude
  choose_by_mean c feasible_last mu =
      let edge = mu ⊖ fixed_fraction c.charges in
      let coefficient = round_trip_coefficient c.curve in
      let lots =
        candidates (first_lot c) feasible_last (target_of c feasible_last edge coefficient) in
      if not (is_finite coefficient)
      then ok (empty Reason.nonfinite_impact_coefficient)
      else (best_of c lots none >>= conclude c feasible_last edge coefficient)

  -- From the largest feasible number of lots on.
  unfoldable pub choose : Candidate D F → ℕ → Result (SizingResult D F)
  unfolding samples_of choose_by_mean
  choose c feasible_last = do
    samples ← samples_of c.forecast
    choose_by_mean c feasible_last (np.mean samples)

  -- From the quote of the first lot on.
  unfoldable pub size_from : Candidate D F → Result (SizingResult D F)
  unfolding choose
  size_from c = do
    minimum ← quote c (first_lot c)
    if not (is_enter minimum.decision.action)
        then ok (empty_with minimum.decision)
        else (search (gate c) (last_lot c - first_lot c) (first_lot c) (last_lot c) >>= choose c)

  unfoldable pub size_position : Candidate D F → Result (SizingResult D F)
  unfolding size_from
  size_position c = do
    integer c.now_ms 0
    if inputs_refused c
        then ok (empty Reason.sizing_inputs_not_admitted)
        else if ltb (last_lot c) (first_lot c)
        then ok (empty Reason.no_executable_size)
        else size_from c
