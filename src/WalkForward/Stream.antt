-- ===== src/WalkForward/Stream.antt =====
-- `_Runner.__init__`, the arrival of an event, and the funding branch of `process`.
use perpetuals_carry_strateg.Base.{
  ℕ, ◌+◌, String, not, ◌&&◌, ◌||◌, Option, none, some, [], ltb, leb, ◌==◌, if◌then◌else◌,
}
use perpetuals_carry_strateg.Base.Text.{is_empty}
use perpetuals_carry_strateg.Base.Result.{Result, ok, Error, raise_if, ◌>>◌, ◌>>=◌}
use perpetuals_carry_strateg.Number.{Number, Conversions}
use perpetuals_carry_strateg.Checks.{integer, decimal}
use perpetuals_carry_strateg.Accounting.State.{contains, with_id, given, FundingSettlement, start}
use perpetuals_carry_strateg.Accounting.Payments.{settle}
use perpetuals_carry_strateg.Carry.Types.{Position, check_position}
use perpetuals_carry_strateg.Rolling.History.{create, update}
use perpetuals_carry_strateg.WalkForward.{
  mode_eq, Config, FundingEvent, Record, Environment, Runner, interval_ms,
}
use perpetuals_carry_strateg.WalkForward.Trading.{reserve}
use perpetuals_carry_strateg.WalkForward.Reports.{record_funding}

module _ {D F Summary : Type 0} ⦃d : Number D⦄ ⦃n : Number F⦄ where
  -- `_Runner.__init__`
  unfoldable pub begin : Environment D F Summary → Result (Runner D F)
  unfolding create start
  begin env =
      let config = env.config in
      do
        raise_if (not (mode_eq env.executor.mode config.execution_mode)) Error.value_error
        model ← create config.rolling_days config.min_settlements
        ledger ← start config.symbol config.initial_capital_usdt config.start_ms env.fees
        ok (record {
          model = model;
          ledger = ledger;
          position = none;
          last_time = config.warmup_start_ms;
          next_observation_ms = config.warmup_start_ms;
          ids = [];
          fold_curves = [];
          next_decision_ms = config.start_ms + config.decision_delay_ms;
        })

module _ {D F : Type 0} where
  -- The tests of `process` on the order of the stream, and the time and identifier it then notes.
  unfoldable pub arrive : Config D F → Runner D F → String → ℕ → Result (Runner D F)
  unfolding integer
  arrive config r event_id time_ms = do
    integer time_ms 0
    raise_if (is_empty event_id || (contains event_id r.ids || ltb time_ms r.last_time))
        Error.value_error
    raise_if (not (leb config.warmup_start_ms time_ms && ltb time_ms config.end_ms))
        Error.value_error
    raise_if (leb config.start_ms time_ms && ltb r.next_decision_ms time_ms) Error.value_error
    ok (record r { last_time = time_ms; ids = with_id r.ids event_id })

module _ {F : Type 0} ⦃n : Number F⦄ where
  -- A settlement counts for the position that is held.
  unfoldable pub held_longer : Option (Position F) → Result (Option (Position F))
  unfolding check_position
  held_longer none = ok none
  held_longer (some p) = do
    p' ← check_position (record p { settlements_held = p.settlements_held + 1 })
    ok (some p')

module _ {D F : Type 0} ⦃d : Number D⦄ ⦃n : Number F⦄ where
  -- The settlement that a funding event books.
  abbrev pub settlement_of : Config D F → FundingEvent D → FundingSettlement D
  settlement_of config event = record {
    event_id = event.event_id;
    symbol = config.symbol;
    time_ms = event.time_ms;
    interval_hours = event.interval_hours;
    rate = event.rate;
    mark_price = event.mark_price;
  }

  -- The booking of a funding event in the study window.
  unfoldable pub settle_scored : Config D F → Runner D F → FundingEvent D → Result (Runner D F)
  unfolding settle reserve held_longer
  settle_scored config r event = do
    ledger ← settle r.ledger (settlement_of config event)
    mark ← given event.mark_price
    reserve config ledger mark
    position ← held_longer r.position
    ok (record r { ledger = ledger; position = position })

module _ {D F Summary : Type 0} ⦃d : Number D⦄ ⦃n : Number F⦄ ⦃v : Conversions D F⦄ where
  -- The funding branch of `process`.
  unfoldable pub process_funding :
      Environment D F Summary
      → Runner D F
      → FundingEvent D
      → Result (Runner D F × Option (Record D F Summary))
  unfolding decimal settle_scored update record_funding
  process_funding env r event =
      let config = env.config in
      do
        decimal event.rate
        raise_if
            (not (event.interval_hours == config.interval_hours)
              || not (event.time_ms == r.next_observation_ms))
            Error.value_error
        booked ← (if leb config.start_ms event.time_ms then settle_scored config r event else ok r)
        model ← update booked.model (record {
          time = event.time_ms;
          rate = v.to_float event.rate;
          hours = event.interval_hours;
        })
        let observed : Runner D F = record booked {
          model = model;
          next_observation_ms = r.next_observation_ms + interval_ms config;
        }
        ok (
          observed,
          if ltb event.time_ms config.start_ms
              then none
              else some (record_funding env observed event),
        )
