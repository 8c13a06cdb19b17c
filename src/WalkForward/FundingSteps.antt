-- ===== src/WalkForward/FundingSteps.antt =====
-- What an accepted funding event does to a run.
use mathlib.Core.Path.{subst}
use perpetuals_carry_strateg.Base.{
  ℕ, ◌+◌, not, ◌||◌, Option, none, some, ◌≡◌, refl, sym, ap, ◌∙◌, inl, inr, arith, if-cases, leb,
  ◌==◌, or_false, if◌then◌else◌,
}
use perpetuals_carry_strateg.Base.Result.{
  ok, Error, >>-eq-ok, >>=-eq-ok, raise_if-eq-ok, ok_injective,
}
use perpetuals_carry_strateg.Number.{Number, Conversions}
use perpetuals_carry_strateg.Checks.{decimal}
use perpetuals_carry_strateg.Accounting.State.{given}
use perpetuals_carry_strateg.Accounting.Payments.{settled, settle}
use perpetuals_carry_strateg.Accounting.Steps.{Event, apply, begun, after, settle-eq-ok}
use perpetuals_carry_strateg.Carry.Types.{Position, check_position}
use perpetuals_carry_strateg.Rolling.History.{Row, RollingFundingModel, update}
use perpetuals_carry_strateg.WalkForward.{
  Config, FundingEvent, Record, Environment, Runner, interval_ms,
}
use perpetuals_carry_strateg.WalkForward.Trading.{reserve}
use perpetuals_carry_strateg.WalkForward.Stream.{
  held_longer, settlement_of, settle_scored, process_funding,
}
use perpetuals_carry_strateg.WalkForward.Safe.{some-ne-none, IsBalanced, IsSafe, IsSafe-refl}

module _ {F : Type 0} ⦃n : Number F⦄ where
  held_longer-none : {p : Option (Position F)} → held_longer none ≡ ok p → p ≡ none
  unfolding held_longer
  held_longer-none h = sym (ok_injective h)

  held_longer-some :
      (p : Position F) {q : Option (Position F)} → held_longer (some p) ≡ ok q → q ≡ none → ⊥
  unfolding held_longer
  held_longer-some p h e =
      let (p', _, done) =
        >>=-eq-ok (check_position (record p { settlements_held = p.settlements_held + 1 })) _ h in
      elim (some-ne-none (ok_injective done ∙ e)) [ ]

  held_longer-flat :
      (p : Option (Position F)) {q : Option (Position F)}
      → held_longer p ≡ ok q
      → q ≡ none
      → p ≡ none
  held_longer-flat none h e = refl
  held_longer-flat (some p) h e = elim (held_longer-some p h e) [ ]

module _ {D F : Type 0} ⦃d : Number D⦄ ⦃n : Number F⦄ where
  settle_scored-IsSafe :
      (config : Config D F) (r : Runner D F) (event : FundingEvent D) {r' : Runner D F}
      → settle_scored config r event ≡ ok r'
      → IsSafe r r'
  unfolding settle_scored apply settled
  settle_scored-IsSafe config r event h =
      let (l, booked, h₁) = >>=-eq-ok (settle r.ledger (settlement_of config event)) _ h in
      let (mark, _, h₂) = >>=-eq-ok (given event.mark_price) _ h₁ in
      let (_, h₃) = >>-eq-ok (reserve config l mark) _ h₂ in
      let (p, longer, done) = >>=-eq-ok (held_longer r.position) _ h₃ in
      let (_, _, same) = settle-eq-ok r.ledger (settlement_of config event) booked in
      subst (IsSafe r) (ok_injective done) (record {
        keeps = record {
          history = after (Event.funding_settled (settlement_of config event)) begun booked;
          model = refl;
          last_time = refl;
          ids = refl;
          next_observation = refl;
          next_decision = refl;
          sealed = λ fold digest k. k;
        };
        balanced = λ exact b.
            subst (λ l. IsBalanced (record r { ledger = l; position = p })) same
              (record {
                hedged = b.hedged;
                flat = λ e. b.flat (held_longer-flat r.position longer e);
              });
      })

module _ {D F : Type 0} ⦃v : Conversions D F⦄ where
  -- The row that a funding event adds to the model.
  abbrev pub row_of : FundingEvent D → Row F
  row_of event = record {
    time = event.time_ms;
    rate = v.to_float event.rate;
    hours = event.interval_hours;
  }

module _ {D F : Type 0} ⦃d : Number D⦄ where
  observe-IsSafe :
      (model : RollingFundingModel F) (next : ℕ) {r r' : Runner D F}
      → IsSafe r r'
      → IsSafe
          (record r { model = model; next_observation_ms = next })
          (record r' { model = model; next_observation_ms = next })
  observe-IsSafe model next s = record {
    keeps = record {
      history = s.keeps.history;
      model = refl;
      last_time = s.keeps.last_time;
      ids = s.keeps.ids;
      next_observation = refl;
      next_decision = s.keeps.next_decision;
      sealed = s.keeps.sealed;
    };
    balanced = λ exact b.
        let after_all = s.balanced exact (record { hedged = b.hedged; flat = b.flat }) in
        record { hedged = after_all.hedged; flat = after_all.flat };
  }

module _ {D F Summary : Type 0} ⦃d : Number D⦄ ⦃n : Number F⦄ ⦃v : Conversions D F⦄ where
  -- What a funding event leaves: a run that is safe but for the model and the next observation.
  pub record IsFundingStep (env : Environment D F Summary) (r : Runner D F) (event : FundingEvent D)
      (r' : Runner D F) : Type 0 where
    pub on_time : event.time_ms ≡ r.next_observation_ms
    pub cadence : event.interval_hours ≡ env.config.interval_hours
    pub model : RollingFundingModel F
    pub updated : update r.model (row_of event) ≡ ok model
    pub safe :
        IsSafe
          (record r {
            model = model;
            next_observation_ms = r.next_observation_ms + interval_ms env.config;
          })
          r'

  pub process_funding-IsFundingStep :
      (env : Environment D F Summary) (r : Runner D F) (event : FundingEvent D) {r' : Runner D F}
      {scored : Option (Record D F Summary)}
      → process_funding env r event ≡ ok (r', scored)
      → IsFundingStep env r event r'
  unfolding process_funding
  process_funding-IsFundingStep env r event {r'} h =
      let config = env.config in
      let (_, h₁) = >>-eq-ok (decimal event.rate) _ h in
      let (due, h₂) =
        raise_if-eq-ok
          (not (event.interval_hours == config.interval_hours)
            || not (event.time_ms == r.next_observation_ms))
          Error.value_error _ h₁ in
      let (cadence, on_time) =
        or_false (not (event.interval_hours == config.interval_hours)) _ due in
      let (booked, settled, h₃) =
        >>=-eq-ok (if leb config.start_ms event.time_ms then settle_scored config r event else ok r)
          _ h₂ in
      let (model, updated, done) = >>=-eq-ok (update booked.model (row_of event)) _ h₃ in
      let safe : IsSafe r booked = elim (if-cases (leb config.start_ms event.time_ms) settled) [
        | inl (_, scored_now) ↦ settle_scored-IsSafe config r event scored_now
        | inr (_, warmup) ↦ subst (IsSafe r) (ok_injective warmup) (IsSafe-refl r)
      ] in
      let same = ap (λ p. p.0) (ok_injective done) in
      record {
        on_time = ground arith;
        cadence = ground arith;
        model = model;
        updated = subst (λ m. update m (row_of event) ≡ ok model) safe.keeps.model updated;
        safe =
            subst (IsSafe _) same
              (observe-IsSafe model (r.next_observation_ms + interval_ms config) safe);
      }
