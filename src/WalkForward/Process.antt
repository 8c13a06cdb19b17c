-- ===== src/WalkForward/Process.antt =====
-- `_Runner.process` and `iter_backtest`.
use perpetuals_carry_strateg.Base.{Option, none, some, List, [], ◌∷◌}
use perpetuals_carry_strateg.Base.Result.{Result, ok, err, Error, ◌>>=◌}
use perpetuals_carry_strateg.Number.{Number, Conversions}
use perpetuals_carry_strateg.Carry.Types.{Numpy}
use perpetuals_carry_strateg.Sizing.Market.{Rounding}
use perpetuals_carry_strateg.WalkForward.{StreamEvent, Record, Environment, Runner}
use perpetuals_carry_strateg.WalkForward.Stream.{begin, arrive, process_funding}
use perpetuals_carry_strateg.WalkForward.Market.{process_market}

module _ {D F Summary : Type 0} ⦃d : Number D⦄ ⦃n : Number F⦄ ⦃v : Conversions D F⦄
    ⦃rd : Rounding D⦄ ⦃np : Numpy F⦄ (env : Environment D F Summary) where
  -- `process`
  unfoldable pub process :
      Runner D F → StreamEvent D F → Result (Runner D F × Option (Record D F Summary))
  unfolding arrive process_funding process_market
  process r (StreamEvent.funding event) = do
    arrived ← arrive env.config r event.event_id event.time_ms
    process_funding env arrived event
  process r (StreamEvent.market event) = do
    arrived ← arrive env.config r event.event_id event.time_ms
    process_market env arrived event

  abbrev pub with_record :
      Option (Record D F Summary) → List (Record D F Summary) → List (Record D F Summary)
  with_record none records = records
  with_record (some scored) records = scored ∷ records

  -- The records that the generator yields, and the exception that ends it, if any.
  abbrev pub Yielded : Type 0
  Yielded = List (Record D F Summary) × Option Error

  -- The rest of the generator runs on the runner that an event leaves.
  abbrev pub yield_from :
      Result (Runner D F × Option (Record D F Summary)) → (Runner D F → Yielded) → Yielded
  yield_from (err raised) rest = ([], some raised)
  yield_from (ok (r, scored)) rest = (with_record scored (rest r).0, (rest r).1)

  unfoldable pub run_from : Runner D F → List (StreamEvent D F) → Yielded
  unfolding process
  run_from r [] = ([], none)
  run_from r (event ∷ events) = yield_from (process r event) (λ r'. run_from r' events)

  -- `iter_backtest`
  unfoldable pub iter_backtest : List (StreamEvent D F) → Yielded
  unfolding begin run_from
  iter_backtest events = elim (begin env) [
    | err raised ↦ ([], some raised)
    | ok r ↦ run_from r events
  ]
