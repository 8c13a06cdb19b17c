-- ===== src/WalkForward/Schedule.antt =====
-- The schedule that a run keeps: an abstract machine of three clocks, which every event steps.
use mathlib.Core.Path.{subst}
use native.Mathlib.Nat.{suc-mul}
use perpetuals_carry_strateg.Base.{
  ℕ, suc, ◌+◌, ◌*◌, ◌≤◌, ◌<◌, Bool, true, false, not, ◌&&◌, ◌||◌, Option, ◌≡◌, refl, sym, ap, ◌∙◌,
  arith, Bool-cases, inl, inr, ltb, ◌==◌, ==→eq,
}
use perpetuals_carry_strateg.Base.Text.{str_eq}
use perpetuals_carry_strateg.Base.Result.{ok, Error, >>-eq-ok, raise_if-eq-ok}
use perpetuals_carry_strateg.Number.{Number, Conversions}
use perpetuals_carry_strateg.Checks.{positive_decimal, decimal}
use perpetuals_carry_strateg.Carry.Types.{Numpy}
use perpetuals_carry_strateg.Sizing.Market.{Rounding}
use perpetuals_carry_strateg.Execution.{MarketEvent}
use perpetuals_carry_strateg.WalkForward.{StreamEvent, Record, Environment, Runner, interval_ms}
use perpetuals_carry_strateg.WalkForward.Market.{check_market, within_guard, next_decision}
use perpetuals_carry_strateg.WalkForward.Process.{process}
use perpetuals_carry_strateg.WalkForward.Steps.{IsArrived}
use perpetuals_carry_strateg.WalkForward.Run.{
  id_of, time_of, Run, idle, onward, IsProcessed, funded, marketed, process-IsProcessed,
}

-- The time of the last event, and when the next settlement and the next decision are due.
pub record Schedule : Type 0 where
  pub time : ℕ
  pub observation : ℕ
  pub decision : ℕ

abbrev pub schedule_of : {D F : Type 0} → Runner D F → Schedule
schedule_of r = record {
  time = r.last_time;
  observation = r.next_observation_ms;
  decision = r.next_decision_ms;
}

-- A step of the schedule, in a study that starts at a time and ends at another: a settlement when it
-- is due, a decision when it is due, or a mark between decisions; none goes back, and none of the
-- study passes a decision that is due.
pub data Tick (begins ends interval : ℕ) (s s' : Schedule) : Type 0 where
  settlement_due :
      s.time ≤ s.observation
      → s.observation < ends
      → (begins ≤ s.observation → s.observation ≤ s.decision)
      → s' ≡ record {
        time = s.observation;
        observation = s.observation + interval;
        decision = s.decision;
      }
      → Tick begins ends interval s s'
  decision_due :
      s.time ≤ s.decision
      → s.decision < ends
      → begins ≤ s.decision
      → s' ≡ record {
        time = s.decision;
        observation = s.observation;
        decision = s.decision + interval;
      }
      → Tick begins ends interval s s'
  between :
      (t : ℕ)
      → s.time ≤ t
      → t < s.decision
      → t < ends
      → begins ≤ t
      → s' ≡ record { time = t; observation = s.observation; decision = s.decision }
      → Tick begins ends interval s s'

same_schedule :
    {t o c t' o' c' : ℕ}
    → t ≡ t'
    → o ≡ o'
    → c ≡ c'
    → ◌≡◌ {A = Schedule}
        (record { time = t; observation = o; decision = c })
        (record { time = t'; observation = o'; decision = c' })
same_schedule p q r = λ i. record { time = p i; observation = q i; decision = r i }

module _ {D F Summary : Type 0} ⦃d : Number D⦄ ⦃n : Number F⦄ ⦃v : Conversions D F⦄
    ⦃rd : Rounding D⦄ ⦃np : Numpy F⦄ (env : Environment D F Summary) where
  check_market-eq-ok :
      (r : Runner D F) (event : MarketEvent D F)
      → check_market env r event ≡ ok tt
      → (env.config.start_ms ≤ event.time_ms)
        × (event.decide ≡ (event.time_ms == r.next_decision_ms))
  unfolding check_market
  check_market-eq-ok r event h =
      let config = env.config in
      let (early, h₁) = raise_if-eq-ok (ltb event.time_ms config.start_ms) Error.value_error _ h in
      let (_, h₂) = >>-eq-ok (positive_decimal event.spot_mid) _ h₁ in
      let (_, h₃) = >>-eq-ok (positive_decimal event.perp_mid) _ h₂ in
      let (_, h₄) = >>-eq-ok (decimal event.financing_usdt) _ h₃ in
      let (_, h₅) =
        raise_if-eq-ok
          (not (event.marks.time_ms == event.time_ms)
            || not (str_eq event.marks.symbol config.symbol))
          Error.value_error _ h₄ in
      let (_, h₆) =
        raise_if-eq-ok (event.decide && within_guard r.ledger.last_funding_ms event.time_ms)
          Error.value_error _ h₅ in
      let (matches, _) =
        raise_if-eq-ok
          ((event.decide && not (event.time_ms == r.next_decision_ms))
            || (not event.decide && event.time_ms == r.next_decision_ms))
          Error.value_error _ h₆ in
      (ground arith, agree event.decide (event.time_ms == r.next_decision_ms) matches)
    where
      agree : (a b : Bool) → ((a && not b) || (not a && b)) ≡ false → a ≡ b
      agree true true h = refl
      agree false false h = refl
      agree true false h = cc
      agree false true h = cc

  processed-Tick :
      (r arrived r' : Runner D F) (event : StreamEvent D F)
      → IsArrived env.config r (id_of event) (time_of event) arrived
      → IsProcessed env arrived r' event
      → Tick env.config.start_ms env.config.end_ms
          (interval_ms env.config)
          (schedule_of r)
          (schedule_of r')
  processed-Tick r arrived r' _ a (funded {event} f) =
      let t = event.time_ms in
      let obs : arrived.next_observation_ms ≡ r.next_observation_ms =
        ap (λ x. x.next_observation_ms) (sym a.same) in
      let dec : arrived.next_decision_ms ≡ r.next_decision_ms =
        ap (λ x. x.next_decision_ms) (sym a.same) in
      let time : arrived.last_time ≡ t = ap (λ x. x.last_time) (sym a.same) in
      let due : t ≡ r.next_observation_ms = f.on_time ∙ obs in
      let order = a.in_order in
      let before = a.before_end in
      settlement_due (omega arith) (omega arith)
        (λ k.
          let started : env.config.start_ms ≤ t = omega arith in omega (arith, a.scheduled started))
        (same_schedule (f.safe.keeps.last_time ∙ time ∙ due)
          (f.safe.keeps.next_observation ∙ ap (λ x. x + interval_ms env.config) obs)
          (f.safe.keeps.next_decision ∙ dec))
  processed-Tick r arrived r' _ a (marketed {event} m) =
      let t = event.time_ms in
      let obs : arrived.next_observation_ms ≡ r.next_observation_ms =
        ap (λ x. x.next_observation_ms) (sym a.same) in
      let dec : arrived.next_decision_ms ≡ r.next_decision_ms =
        ap (λ x. x.next_decision_ms) (sym a.same) in
      let time : arrived.last_time ≡ t = ap (λ x. x.last_time) (sym a.same) in
      let (started, agrees) = check_market-eq-ok arrived event m.checked in
      let order = a.in_order in
      let before = a.before_end in
      let in_time = a.scheduled started in
      let keeps = m.safe.keeps in
      elim (Bool-cases event.decide) [
        | inl decides ↦
            let due : t ≡ r.next_decision_ms =
              ==→eq t arrived.next_decision_ms (sym agrees ∙ decides) ∙ dec in
            let next : r'.next_decision_ms ≡ r.next_decision_ms + interval_ms env.config =
              keeps.next_decision
              ∙ ap (λ b. next_decision env b arrived.next_decision_ms) decides
              ∙ ap (λ x. x + interval_ms env.config) dec in
            decision_due (omega arith) (omega arith) (omega arith)
              (same_schedule (keeps.last_time ∙ time ∙ due) (keeps.next_observation ∙ obs) next)
        | inr waits ↦
            let off : (t == arrived.next_decision_ms) ≡ false = sym agrees ∙ waits in
            let next : r'.next_decision_ms ≡ r.next_decision_ms =
              keeps.next_decision
              ∙ ap (λ b. next_decision env b arrived.next_decision_ms) waits
              ∙ dec in
            between t (omega arith) (ground arith) before started
              (same_schedule (keeps.last_time ∙ time) (keeps.next_observation ∙ obs) next)
      ]

  -- Every accepted event is a step of the schedule: a settlement at the next observation, a decision
  -- at the next decision, or a mark between two decisions. No event goes back in time or passes a
  -- decision of the study that is due, and each settlement and decision puts off the next by the
  -- interval.
  pub process-Tick :
      (r : Runner D F) (event : StreamEvent D F) {r' : Runner D F}
      {scored : Option (Record D F Summary)}
      → process env r event ≡ ok (r', scored)
      → Tick env.config.start_ms env.config.end_ms
          (interval_ms env.config)
          (schedule_of r)
          (schedule_of r')
  process-Tick r event {r'} h =
      let (arrived, a, p) = process-IsProcessed env r event h in
      processed-Tick r arrived r' event a p

-- The schedules that steps lead to.
pub data Ticks (begins ends interval : ℕ) (s : Schedule) : Schedule → Type 0 where
  still : Ticks begins ends interval s s
  tick :
      {t u : Schedule}
      → Ticks begins ends interval s t
      → Tick begins ends interval t u
      → Ticks begins ends interval s u

-- The clocks of a schedule that began as another are whole intervals after it.
pub record IsAligned (interval : ℕ) (s t : Schedule) : Type 0 where
  pub observations : ℕ
  pub decisions : ℕ
  pub observation : t.observation ≡ s.observation + observations * interval
  pub decision : t.decision ≡ s.decision + decisions * interval

module _ (begins ends interval : ℕ) (s : Schedule) where
  Tick-IsAligned :
      (t u : Schedule)
      → Tick begins ends interval t u
      → IsAligned interval s t
      → IsAligned interval s u
  Tick-IsAligned t u (settlement_due _ _ _ e) a = subst (IsAligned interval s) (sym e) (record {
    observations = suc a.observations;
    decisions = a.decisions;
    observation =
        let before = a.observation in omega (arith, before, suc-mul a.observations interval);
    decision = a.decision;
  })
  Tick-IsAligned t u (decision_due _ _ _ e) a = subst (IsAligned interval s) (sym e) (record {
    observations = a.observations;
    decisions = suc a.decisions;
    observation = a.observation;
    decision = let before = a.decision in omega (arith, before, suc-mul a.decisions interval);
  })
  Tick-IsAligned t u (between _ _ _ _ _ e) a = subst (IsAligned interval s) (sym e) (record {
    observations = a.observations;
    decisions = a.decisions;
    observation = a.observation;
    decision = a.decision;
  })

  Ticks-IsAligned : {t : Schedule} → Ticks begins ends interval s t → IsAligned interval s t
  Ticks-IsAligned still = record {
    observations = 0;
    decisions = 0;
    observation = omega arith;
    decision = omega arith;
  }
  Ticks-IsAligned (tick {t} {u} ts k) = Tick-IsAligned t u k (Ticks-IsAligned ts)

module _ {D F Summary : Type 0} ⦃d : Number D⦄ ⦃n : Number F⦄ ⦃v : Conversions D F⦄
    ⦃rd : Rounding D⦄ ⦃np : Numpy F⦄ (env : Environment D F Summary) where
  Run-Ticks :
      {first r : Runner D F}
      → Run env first r
      → Ticks env.config.start_ms env.config.end_ms
          (interval_ms env.config)
          (schedule_of first)
          (schedule_of r)
  Run-Ticks idle = still
  Run-Ticks (onward event run h) = tick (Run-Ticks run) (process-Tick env _ event h)

  -- A run refines the schedule: it is a sequence of its steps, so that the next settlement and the
  -- next decision are always whole intervals after the first ones.
  pub Run-IsScheduled :
      {first r : Runner D F}
      → Run env first r
      → Ticks env.config.start_ms env.config.end_ms
          (interval_ms env.config)
          (schedule_of first)
          (schedule_of r)
        × IsAligned (interval_ms env.config) (schedule_of first) (schedule_of r)
  Run-IsScheduled run = let ticks = Run-Ticks run in (ticks, Ticks-IsAligned _ _ _ _ ticks)
