-- ===== src/WalkForward/Examples.antt =====
-- The runs of a study of February 1970: settlements, and a decision that enters a carry.
use perpetuals_carry_strateg.Base.{true, ℕ, ◌+◌, false, Option, none, some, [], ◌∷◌, ◌≡◌, refl}
use perpetuals_carry_strateg.Base.Text.{sample_digest}
use perpetuals_carry_strateg.Base.Result.{Result, ok, err, Error}
use perpetuals_carry_strateg.Number.Points.{
  Points, points_number, Points-IsExact, whole_number, plus, opposite, times, over, root,
}
use perpetuals_carry_strateg.Calendar.{fold_start}
use perpetuals_carry_strateg.Execution.{check_opportunity}
use perpetuals_carry_strateg.Checks.{number}
use perpetuals_carry_strateg.Fees.{quote}
use perpetuals_carry_strateg.Carry.Samples.{points_numpy}
use perpetuals_carry_strateg.Sizing.{SizingInputs}
use perpetuals_carry_strateg.Sizing.Market.{Rounding}
use perpetuals_carry_strateg.Execution.{MarketEvent}
use perpetuals_carry_strateg.WalkForward.{StreamEvent, Runner, Record, check_config, scope_refused}
use perpetuals_carry_strateg.WalkForward.Executors.{inferred_executor}
use perpetuals_carry_strateg.WalkForward.Stream.{begin}
use perpetuals_carry_strateg.WalkForward.Process.{process}
use perpetuals_carry_strateg.Number.{◌≺◌}
use perpetuals_carry_strateg.WalkForward.Trading.{admit}
use perpetuals_carry_strateg.WalkForward.Run.{Run, idle, onward, IsSound, Run-IsSound}
use perpetuals_carry_strateg.Base.Lists.{All}
use perpetuals_carry_strateg.WalkForward.Observed.{IsObserved, Run-IsObserved}
use perpetuals_carry_strateg.WalkForward.Schedule.{
  schedule_of, Tick, Ticks, IsAligned, process-Tick, Run-IsScheduled,
}
use perpetuals_carry_strateg.WalkForward.Sealed.{
  repeat_refused, Run-IsSealed, process-IsCovered, IsCovered,
}
use perpetuals_carry_strateg.Rolling.History.{selection}
use perpetuals_carry_strateg.Carry.Types.{check_forecast, check_estimate}
use perpetuals_carry_strateg.Carry.Decide.{hurdle}
use perpetuals_carry_strateg.Costs.{estimate_of}
use perpetuals_carry_strateg.Sizing.Market.{inputs_refused, upper, lower, gate}
use perpetuals_carry_strateg.Sizing.Search.{search}
use perpetuals_carry_strateg.Sizing.Choice.{best_of}
use perpetuals_carry_strateg.Sizing.Position.{target_of}
use perpetuals_carry_strateg.Accounting.Fills.{fill}
use perpetuals_carry_strateg.WalkForward.Samples.{
  points_conversions, points_rounding, february, hours, config, env, settlement, opportunity,
  market_at, first, warm, one_row, f0, f1, f2, decision, warmed, booked_runner, holding,
}

config_checked : check_config config ≡ ok config
unfolding check_config scope_refused fold_start
config_checked = refl

opportunity_checked : check_opportunity opportunity ≡ ok opportunity
unfolding check_opportunity number plus over
opportunity_checked = refl

begun : begin env ≡ ok first
unfolding begin quote inferred_executor
begun = refl

first_settled : process env first f0 ≡ ok (warm 2_620_800_000 ("f0" ∷ []) one_row, none)
unfolding process over
first_settled = refl

second_settled : process env (warm 2_620_800_000 ("f0" ∷ []) one_row) f1 ≡ ok (warmed, none)
unfolding process over
second_settled = refl

abbrev scored_of :
    Result (Runner Points Points × Option (Record Points Points ℕ))
    → Option (Record Points Points ℕ)
scored_of (ok (r, scored)) = scored
scored_of (err raised) = none

third_settled : process env warmed f2 ≡ ok (booked_runner, scored_of (process env warmed f2))
unfolding process over plus opposite times
third_settled = refl

entered :
    process env booked_runner (StreamEvent.market decision)
    ≡ ok (holding, scored_of (process env booked_runner (StreamEvent.market decision)))
unfolding process over plus opposite times root inferred_executor selection check_forecast quote
    inputs_refused upper lower perpetuals_carry_strateg.Sizing.Market.quote check_estimate
    estimate_of hurdle search gate best_of target_of fill
entered = refl

first_day : Run env first holding
first_day =
    onward (StreamEvent.market decision)
      (onward f2 (onward f1 (onward f0 idle first_settled) second_settled) third_settled) entered

Run-IsSound_example : IsSound env holding
Run-IsSound_example = Run-IsSound env Points-IsExact begun first_day

-- The model has seen the three settlements of the first day.
Run-IsObserved_example : All (IsObserved env first_day) holding.model.history
Run-IsObserved_example = Run-IsObserved env begun first_day

process-Tick_example :
    Tick february 5_097_600_000 (hours 8) (schedule_of booked_runner) (schedule_of holding)
process-Tick_example = process-Tick env booked_runner (StreamEvent.market decision) entered

Run-IsScheduled_example :
    Ticks february 5_097_600_000 (hours 8) (schedule_of first) (schedule_of holding)
    × IsAligned (hours 8) (schedule_of first) (schedule_of holding)
Run-IsScheduled_example = Run-IsScheduled env first_day

short_perp : (holding.ledger.perp.quantity ≺ whole_number 0) ≡ true
short_perp = refl

process-IsCovered_example : IsCovered config holding.ledger (whole_number 100)
process-IsCovered_example =
    process-IsCovered env booked_runner decision Points-IsExact begun
      (onward f2 (onward f1 (onward f0 idle first_settled) second_settled) third_settled) entered
      short_perp

-- The identifier of the second settlement is not accepted again.
abbrev again : StreamEvent Points Points
again = StreamEvent.funding (settlement "f1" (february + hours 8))

repeat_refused_example : process env holding again ≡ err Error.value_error
repeat_refused_example =
    repeat_refused env (warm 2_620_800_000 ("f0" ∷ []) one_row) f1 again second_settled
      (onward (StreamEvent.market decision) (onward f2 idle third_settled) entered) refl

-- The opportunity of the decision seals its month, and half an hour later is admitted again.
abbrev sealed : Runner Points Points
sealed = record booked_runner { fold_curves = (february, sample_digest) ∷ [] }

admitted_first : admit config booked_runner decision ≡ ok (sealed, some opportunity)
unfolding admit fold_start
admitted_first = refl

entered_sealed :
    process env sealed (StreamEvent.market decision)
    ≡ ok (holding, scored_of (process env sealed (StreamEvent.market decision)))
unfolding process over plus opposite times root inferred_executor selection check_forecast quote
    inputs_refused upper lower perpetuals_carry_strateg.Sizing.Market.quote check_estimate
    estimate_of hurdle search gate best_of target_of fill
entered_sealed = refl

abbrev half_past : MarketEvent Points Points
half_past = market_at "m1" (february + 1_800_000) false (whole_number 0)

admitted_later : admit config holding half_past ≡ ok (holding, some opportunity)
unfolding admit fold_start
admitted_later = refl

Run-IsSealed_example : opportunity.curve.artifact_sha256 ≡ opportunity.curve.artifact_sha256
Run-IsSealed_example =
    Run-IsSealed env booked_runner decision half_past admitted_first
      (onward (StreamEvent.market decision) idle entered_sealed) admitted_later refl
