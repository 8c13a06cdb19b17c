-- ===== src/WalkForward/Safe.antt =====
-- What a decision does to the balance of a run.
use mathlib.Core.Path.{subst}
use perpetuals_carry_strateg.Base.{
  ℕ, Bool, true, false, Option, none, some, ◌≡◌, sym, ap, ◌∙◌, inl, inr, Bool-cases, if-cases,
}
use perpetuals_carry_strateg.Base.Result.{ok, >>=-eq-ok, ok_injective}
use perpetuals_carry_strateg.Number.{Number, Conversions, ◌⊗◌, ◌≼◌, nought, negate}
use perpetuals_carry_strateg.Number.Laws.{IsExact}
use perpetuals_carry_strateg.Fees.{Market, quote}
use perpetuals_carry_strateg.Carry.Types.{Numpy, Position, FundingForecast, check_position}
use perpetuals_carry_strateg.Carry.Decide.{Decision, decide}
use perpetuals_carry_strateg.Costs.{ExecutionCharges}
use perpetuals_carry_strateg.Sizing.{SizingResult}
use perpetuals_carry_strateg.Sizing.Market.{Rounding, is_enter}
use perpetuals_carry_strateg.Sizing.Position.{size_position}
use perpetuals_carry_strateg.Execution.{Opportunity, MarketEvent}
use perpetuals_carry_strateg.WalkForward.{Config, Environment, Runner, strategy_of}
use perpetuals_carry_strateg.WalkForward.Trading.{admit, charges, trade}
use perpetuals_carry_strateg.WalkForward.Decisions.{
  is_exit, limited_market, opened, Entry, open_position, enter_within, enter, held_estimate,
  approval_of, close_on, held,
}
use perpetuals_carry_strateg.WalkForward.Market.{
  remaining_of, forecast_for, Decided, decide_on, decide_event, decided,
}
use perpetuals_carry_strateg.WalkForward.Keeps.{
  Keeps, Keeps-refl, Keeps-trans, admit-IsAdmitted, IsAdmitted-Keeps,
}
use perpetuals_carry_strateg.WalkForward.Booked.{IsTraded, trade-IsTraded}
use perpetuals_carry_strateg.WalkForward.Balance.{IsHedged, IsBooked-quantities, IsBooked-IsHedged}

module _ {D F : Type 0} ⦃d : Number D⦄ where
  -- The legs cancel, and without a position there is nothing to cancel.
  pub record IsBalanced (r : Runner D F) : Type 0 where
    pub hedged : IsHedged r.ledger
    pub flat : r.position ≡ none → r.ledger.perp.quantity ≡ nought

  pub record IsSafe (r r' : Runner D F) : Type 0 where
    pub keeps : Keeps r r'
    pub balanced : IsExact D → IsBalanced r → IsBalanced r'

  pub IsSafe-refl : (r : Runner D F) → IsSafe r r
  IsSafe-refl r = record { keeps = Keeps-refl r; balanced = λ exact b. b }

  pub IsSafe-trans : {a b c : Runner D F} → IsSafe a b → IsSafe b c → IsSafe a c
  IsSafe-trans s t = record {
    keeps = Keeps-trans s.keeps t.keeps;
    balanced = λ exact b. t.balanced exact (s.balanced exact b);
  }

module _ {D F : Type 0} ⦃d : Number D⦄ ⦃n : Number F⦄ ⦃v : Conversions D F⦄ where
  pub admit-IsSafe :
      (config : Config D F) (r : Runner D F) (event : MarketEvent D F) {r' : Runner D F}
      {o : Option (Opportunity D F)}
      → admit config r event ≡ ok (r', o)
      → IsSafe r r'
  admit-IsSafe config r event h =
      let a = admit-IsAdmitted config r event h in
      record {
        keeps = IsAdmitted-Keeps a;
        balanced = λ exact b. subst IsBalanced a.same (record { hedged = b.hedged; flat = b.flat });
      }

pub some-ne-none : {A : Type 0} {a : A} → some a ≡ none → ⊥
some-ne-none h = cc

module _ {D F Summary : Type 0} ⦃d : Number D⦄ ⦃n : Number F⦄ ⦃v : Conversions D F⦄
    (env : Environment D F Summary) where
  IsTraded-IsHedged :
      IsExact D
      → {r : Runner D F} {event : MarketEvent D F} {quantity : D} {opening : Bool} {r' : Runner D F}
        {done : Bool}
      → IsTraded env r event quantity opening r' done
      → IsHedged r.ledger
      → IsHedged r'.ledger
  IsTraded-IsHedged exact {event = event} {quantity} {opening} t h = elim t.outcome [
    | inl (_, _, same) ↦ subst IsHedged (sym same) h
    | inr (_, b, _) ↦ IsBooked-IsHedged exact env.config event quantity opening b h
  ]

  -- A trade that does not open a position, or opens one that is then held.
  pub open-IsSafe :
      {r : Runner D F} {event : MarketEvent D F} {quantity : D} {r' : Runner D F} (p : Position F)
      → IsTraded env r event quantity true r' true
      → IsSafe r (record r' { position = some p })
  open-IsSafe p t = record {
    keeps = record {
      history = t.keeps.history;
      model = t.keeps.model;
      last_time = t.keeps.last_time;
      ids = t.keeps.ids;
      next_observation = t.keeps.next_observation;
      next_decision = t.keeps.next_decision;
      sealed = t.keeps.sealed;
    };
    balanced = λ exact b. record {
      hedged = IsTraded-IsHedged exact t b.hedged;
      flat = λ h. elim (some-ne-none h) [ ];
    };
  }

  pub refused-IsSafe :
      {r : Runner D F} {event : MarketEvent D F} {quantity : D} {r' : Runner D F}
      → IsTraded env r event quantity true r' false
      → IsSafe r r'
  refused-IsSafe {r} {r' = r'} t = record {
    keeps = t.keeps;
    balanced = λ exact b. record {
      hedged = IsTraded-IsHedged exact t b.hedged;
      flat = λ h. elim t.outcome [
        | inl (_, _, same) ↦ ap (λ l. l.perp.quantity) same ∙ b.flat (sym t.position ∙ h)
        | inr (wrong, _, _) ↦ cc
      ];
    };
  }

  -- A trade that closes the whole of the perpetual leaves nothing of it.
  pub close-IsSafe :
      {r : Runner D F} {event : MarketEvent D F} {r' : Runner D F} {done : Bool}
      → IsTraded env r event (negate r.ledger.perp.quantity) false r' done
      → IsSafe r (record r' { position = none })
  close-IsSafe {r} {event} {r' = r'} t = record {
    keeps = record {
      history = t.keeps.history;
      model = t.keeps.model;
      last_time = t.keeps.last_time;
      ids = t.keeps.ids;
      next_observation = t.keeps.next_observation;
      next_decision = t.keeps.next_decision;
      sealed = t.keeps.sealed;
    };
    balanced = λ exact b. record {
      hedged = IsTraded-IsHedged exact t b.hedged;
      flat = λ h. elim t.outcome [
        | inl (_, wrong, _) ↦ cc
        | inr (_, booked, _) ↦
            (IsBooked-quantities exact env.config event (negate r.ledger.perp.quantity) false
              booked).1
            ∙ exact.add-negate r.ledger.perp.quantity
      ];
    };
  }

module _ {D F Summary : Type 0} ⦃d : Number D⦄ ⦃n : Number F⦄ ⦃v : Conversions D F⦄
    ⦃rd : Rounding D⦄ ⦃np : Numpy F⦄ (env : Environment D F Summary) where
  open_position-IsSafe :
      (r : Runner D F) (event : MarketEvent D F) (result : SizingResult D F) {entry : Entry env}
      → open_position env r event result ≡ ok entry
      → IsSafe r entry.0
  unfolding open_position
  open_position-IsSafe r event result h =
      let (attempt, traded, h₁) = >>=-eq-ok (trade env r event result.quantity_base true) _ h in
      let t = trade-IsTraded env r event result.quantity_base true traded in
      elim (Bool-cases attempt.1) [
        | inl booked ↦
            let (p, _, done) =
              >>=-eq-ok (opened env.config event result.quantity_base) _ (rw booked at h₁) in
            subst (λ x. IsSafe r x.0) (ok_injective done)
              (open-IsSafe env p
                (subst (IsTraded env r event result.quantity_base true attempt.0) booked t))
        | inr short ↦
            subst (λ x. IsSafe r x.0) (ok_injective (rw short at h₁))
              (refused-IsSafe env
                (subst (IsTraded env r event result.quantity_base true attempt.0) short t))
      ]

  enter_within-IsSafe :
      (r : Runner D F) (event : MarketEvent D F) (o : Opportunity D F)
      (forecast : Option (FundingForecast F)) (costs : ExecutionCharges F) (cap : D)
      {entry : Entry env}
      → enter_within env r event o forecast costs cap ≡ ok entry
      → IsSafe r entry.0
  unfolding enter_within
  enter_within-IsSafe r event o forecast costs cap h = elim (Bool-cases (cap ≼ nought)) [
    | inl no_capital ↦ subst (λ x. IsSafe r x.0) (ok_injective (rw no_capital at h)) (IsSafe-refl r)
    | inr some_capital ↦
        let (market, _, h₁) = >>=-eq-ok (limited_market o cap) _ (rw some_capital at h) in
        let (result, _, h₂) =
          >>=-eq-ok
            (size_position (record {
              strategy = strategy_of env.config;
              now_ms = event.time_ms;
              forecast = forecast;
              approval = o.approval;
              market = market;
              curve = o.curve;
              charges = costs;
            }))
            _ h₁ in
        elim (Bool-cases (is_enter result.decision.action)) [
          | inl enters ↦ open_position-IsSafe r event result (rw enters at h₂)
          | inr stays ↦ subst (λ x. IsSafe r x.0) (ok_injective (rw stays at h₂)) (IsSafe-refl r)
        ]
  ]

  enter-IsSafe :
      (r : Runner D F) (event : MarketEvent D F) (o : Option (Opportunity D F))
      (forecast : Option (FundingForecast F)) {entry : Entry env}
      → enter env r event o forecast ≡ ok entry
      → IsSafe r entry.0
  unfolding enter
  enter-IsSafe r event none forecast h = subst (λ x. IsSafe r x.0) (ok_injective h) (IsSafe-refl r)
  enter-IsSafe r event (some o) forecast h =
      let (costs, _, h₁) = >>=-eq-ok (charges env.config env.fees event o) _ h in
      let (spot_fee, _, h₂) =
        >>=-eq-ok (quote env.fees env.config.symbol Market.spot event.time_ms) _ h₁ in
      let (perp_fee, _, h₃) =
        >>=-eq-ok (quote env.fees env.config.symbol Market.perp event.time_ms) _ h₂ in
      enter_within-IsSafe r event o forecast costs _ h₃

  close_on-IsSafe :
      (r : Runner D F) (event : MarketEvent D F) (decision : Decision F) {r' : Runner D F}
      → close_on env r event (negate r.ledger.perp.quantity) decision ≡ ok r'
      → IsSafe r r'
  unfolding close_on
  close_on-IsSafe r event decision h = elim (Bool-cases (is_exit decision.action)) [
    | inl exits ↦
        let quantity = negate r.ledger.perp.quantity in
        let (sold, traded, done) = >>=-eq-ok (trade env r event quantity false) _ (rw exits at h) in
        subst (IsSafe r) (ok_injective done)
          (close-IsSafe env (trade-IsTraded env r event quantity false traded))
    | inr holds ↦ subst (IsSafe r) (ok_injective (rw holds at h)) (IsSafe-refl r)
  ]

  held-IsSafe :
      (r : Runner D F) (event : MarketEvent D F) (p : Position F) (o : Option (Opportunity D F))
      (forecast : Option (FundingForecast F)) (remaining : ℕ) {verdict : Runner D F × Decision F}
      → held env r event p o forecast remaining ≡ ok verdict
      → IsSafe r verdict.0
  unfolding held
  held-IsSafe r event p o forecast remaining h =
      let quantity = negate r.ledger.perp.quantity in
      let (valued, _, h₁) =
        >>=-eq-ok
          (check_position (record p { notional_usdt = v.to_float (quantity ⊗ event.perp_mid) })) _
          h in
      let (estimate, _, h₂) =
        >>=-eq-ok (held_estimate env event o valued quantity remaining) _ h₁ in
      let (decision, _, h₃) =
        >>=-eq-ok
          (decide (strategy_of env.config) event.time_ms forecast estimate (approval_of env o)
            (some valued))
          _ h₂ in
      let (r', closed, done) = >>=-eq-ok (close_on env r event quantity decision) _ h₃ in
      subst (λ x. IsSafe r x.0) (ok_injective done) (close_on-IsSafe r event decision closed)

  decide_on-IsSafe :
      (r : Runner D F) (event : MarketEvent D F) (p : Option (Position F))
      (o : Option (Opportunity D F)) (forecast : Option (FundingForecast F)) {x : Decided env}
      → decide_on env r event p o forecast ≡ ok x
      → IsSafe r x.0
  unfolding decide_on
  decide_on-IsSafe r event none o forecast h =
      let (entry, entered, done) = >>=-eq-ok (enter env r event o forecast) _ h in
      subst (λ x. IsSafe r x.0) (ok_injective done) (enter-IsSafe r event o forecast entered)
  decide_on-IsSafe r event (some p) o forecast h =
      let remaining = remaining_of env (some p) in
      let (verdict, kept, done) = >>=-eq-ok (held env r event p o forecast remaining) _ h in
      subst (λ x. IsSafe r x.0) (ok_injective done)
        (held-IsSafe r event p o forecast remaining kept)

  decide_event-IsSafe :
      (r : Runner D F) (event : MarketEvent D F) {x : Decided env}
      → decide_event env r event ≡ ok x
      → IsSafe r x.0
  unfolding decide_event
  decide_event-IsSafe r event h =
      let remaining = remaining_of env r.position in
      let (forecast, _, h₁) = >>=-eq-ok (forecast_for env r event.time_ms remaining) _ h in
      let (admitted, a, h₂) = >>=-eq-ok (admit env.config r event) _ h₁ in
      IsSafe-trans (admit-IsSafe env.config r event a)
        (decide_on-IsSafe admitted.0 event r.position admitted.1 forecast h₂)

  pub decided-IsSafe :
      (r : Runner D F) (event : MarketEvent D F) {x : Decided env}
      → decided env r event ≡ ok x
      → IsSafe r x.0
  unfolding decided
  decided-IsSafe r event h = elim (if-cases event.decide h) [
    | inl (_, chosen) ↦ decide_event-IsSafe r event chosen
    | inr (_, left) ↦ subst (λ x. IsSafe r x.0) (ok_injective left) (IsSafe-refl r)
  ]
