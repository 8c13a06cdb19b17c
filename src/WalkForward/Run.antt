-- ===== src/WalkForward/Run.antt =====
-- What a run keeps, event by event from its beginning.
use mathlib.Core.Path.{subst}
use perpetuals_carry_strateg.Base.{ℕ, String, not, Option, ◌≡◌, sym, ap}
use perpetuals_carry_strateg.Base.Result.{ok, Error, >>=-eq-ok, raise_if-eq-ok, ok_injective}
use perpetuals_carry_strateg.Number.{Number, Conversions, nought}
use perpetuals_carry_strateg.Number.Laws.{IsExact}
use perpetuals_carry_strateg.Accounting.State.{Ledger, start}
use perpetuals_carry_strateg.Accounting.Steps.{History, begun, start-eq-ok}
use perpetuals_carry_strateg.Carry.Types.{Numpy}
use perpetuals_carry_strateg.Rolling.History.{create}
use perpetuals_carry_strateg.Rolling.Regular.{IsRegular}
use perpetuals_carry_strateg.Rolling.Selection.{create-IsRegular}
use perpetuals_carry_strateg.Rolling.Update.{update-IsRegular}
use perpetuals_carry_strateg.Sizing.Market.{Rounding}
use perpetuals_carry_strateg.Execution.{MarketEvent}
use perpetuals_carry_strateg.WalkForward.{
  FundingEvent, StreamEvent, Record, Environment, Runner, mode_eq,
}
use perpetuals_carry_strateg.WalkForward.Stream.{begin, arrive}
use perpetuals_carry_strateg.WalkForward.Process.{process}
use perpetuals_carry_strateg.WalkForward.Keeps.{History-trans}
use perpetuals_carry_strateg.WalkForward.Balance.{IsHedged}
use perpetuals_carry_strateg.WalkForward.Safe.{IsBalanced, IsSafe}
use perpetuals_carry_strateg.WalkForward.Steps.{
  IsArrived, arrive-IsArrived, IsMarketStep, process_market-IsMarketStep,
}
use perpetuals_carry_strateg.WalkForward.FundingSteps.{
  row_of, IsFundingStep, process_funding-IsFundingStep,
}

abbrev pub id_of : {D F : Type 0} → StreamEvent D F → String
id_of (StreamEvent.funding event) = event.event_id
id_of (StreamEvent.market event) = event.event_id

abbrev pub time_of : {D F : Type 0} → StreamEvent D F → ℕ
time_of (StreamEvent.funding event) = event.time_ms
time_of (StreamEvent.market event) = event.time_ms

module _ {D F Summary : Type 0} ⦃d : Number D⦄ ⦃n : Number F⦄ ⦃v : Conversions D F⦄
    ⦃rd : Rounding D⦄ ⦃np : Numpy F⦄ (env : Environment D F Summary) where
  -- The runners that accepted events lead to.
  pub data Run (first : Runner D F) : Runner D F → Type 0 where
    idle : Run first first
    onward :
        {r r' : Runner D F} {scored : Option (Record D F Summary)} (event : StreamEvent D F)
        → Run first r
        → process env r event ≡ ok (r', scored)
        → Run first r'

  -- What one branch of `process` leaves, after the arrival.
  pub data IsProcessed (r : Runner D F) (r' : Runner D F) : StreamEvent D F → Type 0 where
    funded :
        {event : FundingEvent D}
        → IsFundingStep env r event r'
        → IsProcessed r r' (StreamEvent.funding event)
    marketed :
        {event : MarketEvent D F}
        → IsMarketStep env r event r'
        → IsProcessed r r' (StreamEvent.market event)

  pub process-IsProcessed :
      (r : Runner D F) (event : StreamEvent D F) {r' : Runner D F}
      {scored : Option (Record D F Summary)}
      → process env r event ≡ ok (r', scored)
      → (arrived : Runner D F) × IsArrived env.config r (id_of event) (time_of event) arrived
        × IsProcessed arrived r' event
  unfolding process
  process-IsProcessed r (StreamEvent.funding event) h =
      let (arrived, a, h₁) = >>=-eq-ok (arrive env.config r event.event_id event.time_ms) _ h in
      (
        arrived,
        arrive-IsArrived env.config r event.event_id event.time_ms a,
        funded (process_funding-IsFundingStep env arrived event h₁),
      )
  process-IsProcessed r (StreamEvent.market event) h =
      let (arrived, a, h₁) = >>=-eq-ok (arrive env.config r event.event_id event.time_ms) _ h in
      (
        arrived,
        arrive-IsArrived env.config r event.event_id event.time_ms a,
        marketed (process_market-IsMarketStep env arrived event h₁),
      )

  -- A run is sound: its ledger has a history from its start, its model is regular, and its legs
  -- cancel.
  pub record IsSound (r : Runner D F) : Type 0 where
    pub ledger : Ledger D
    pub ledger_started :
        start env.config.symbol env.config.initial_capital_usdt env.config.start_ms env.fees
        ≡ ok ledger
    pub history : History ledger r.ledger
    pub regular : IsRegular r.model
    pub balanced : IsBalanced r

  begin-IsSound : {r : Runner D F} → IsExact D → begin env ≡ ok r → IsSound r
  unfolding begin
  begin-IsSound exact h =
      let config = env.config in
      let (_, h₁) =
        raise_if-eq-ok (not (mode_eq env.executor.mode config.execution_mode)) Error.value_error _
          h in
      let (m, created, h₂) = >>=-eq-ok (create config.rolling_days config.min_settlements) _ h₁ in
      let (l, opened, done) =
        >>=-eq-ok (start config.symbol config.initial_capital_usdt config.start_ms env.fees) _ h₂ in
      let flat =
        (start-eq-ok config.symbol config.initial_capital_usdt config.start_ms env.fees opened).1 in
      subst IsSound (ok_injective done) (record {
        ledger = l;
        ledger_started = opened;
        history = begun;
        regular = create-IsRegular config.rolling_days config.min_settlements created;
        balanced = record {
          hedged = subst IsHedged flat (exact.add-nought nought);
          flat = λ _. ap (λ x. x.perp.quantity) (sym flat);
        };
      })

  -- Safety moves soundness along, where the model is regular.
  safe-IsSound :
      {r r' : Runner D F} → IsExact D → IsSafe r r' → IsSound r → IsRegular r'.model → IsSound r'
  safe-IsSound exact safe s regular = record {
    ledger = s.ledger;
    ledger_started = s.ledger_started;
    history = History-trans s.history safe.keeps.history;
    regular = regular;
    balanced = safe.balanced exact s.balanced;
  }

  processed-IsSound :
      (r r' : Runner D F) (event : StreamEvent D F)
      → IsExact D
      → IsProcessed r r' event
      → IsSound r
      → IsSound r'
  processed-IsSound r r' _ exact (funded {event} f) s =
      let regular = (update-IsRegular r.model (row_of event) f.updated s.regular).0 in
      safe-IsSound exact f.safe
        (record {
          ledger = s.ledger;
          ledger_started = s.ledger_started;
          history = s.history;
          regular = regular;
          balanced = record { hedged = s.balanced.hedged; flat = s.balanced.flat };
        })
        (subst IsRegular (sym f.safe.keeps.model) regular)
  processed-IsSound r r' _ exact (marketed m) s =
      safe-IsSound exact m.safe
        (record {
          ledger = s.ledger;
          ledger_started = s.ledger_started;
          history = s.history;
          regular = s.regular;
          balanced = record { hedged = s.balanced.hedged; flat = s.balanced.flat };
        })
        (subst IsRegular (sym m.safe.keeps.model) s.regular)

  arrived-IsSound :
      (r : Runner D F) (id : String) (t : ℕ) {r' : Runner D F}
      → IsArrived env.config r id t r'
      → IsSound r
      → IsSound r'
  arrived-IsSound r id t a s = subst IsSound a.same (record {
    ledger = s.ledger;
    ledger_started = s.ledger_started;
    history = s.history;
    regular = s.regular;
    balanced = record { hedged = s.balanced.hedged; flat = s.balanced.flat };
  })

  -- Every runner that accepted events lead to has a ledger with a history from its start, a regular
  -- funding history, legs whose quantities cancel, and nothing of the perpetual where no position
  -- is held, if decimals are exact.
  pub Run-IsSound :
      IsExact D → {first r : Runner D F} → begin env ≡ ok first → Run first r → IsSound r
  Run-IsSound exact h idle = begin-IsSound exact h
  Run-IsSound exact h (onward {r} {r'} event run accepted) =
      let (arrived, a, p) = process-IsProcessed r event accepted in
      processed-IsSound arrived r' event exact p
        (arrived-IsSound r (id_of event) (time_of event) a (Run-IsSound exact h run))
