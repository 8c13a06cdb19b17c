-- ===== src/Carry/Grounds.antt =====
-- On what grounds `CarryStrategy.decide` enters or holds, and that it fails closed.
use text.Mathlib.TextEquality.{eq_iff}
use perpetuals_carry_strateg.Base.{
  ℕ, String, Bool, true, false, not, Option, none, some, List, ◌≡◌, refl, sym, ◌⊎◌, ◌↔◌, inl, inr,
  arith, if◌then◌else◌,
}
use perpetuals_carry_strateg.Base.Text.{str_eq}
use perpetuals_carry_strateg.Base.Result.{ok}
use perpetuals_carry_strateg.Number.{Number}
use perpetuals_carry_strateg.Carry.Types.{
  Numpy, Position, FundingApproval, FundingForecast, CostEstimate,
}
use perpetuals_carry_strateg.Carry.Decide.{
  Action, Decision, CarryStrategy, blocked, go_on, changed_cadence, approval_missing,
  invalid_forecast, costs_refused, hurdle, weigh, weigh_costs, assess, decide,
}
use perpetuals_carry_strateg.Carry.Evidence.{
  remaining_of, Forecasts, Prices, Pays, Grounds, Approves-of, Forecasts-of, Prices-of, weigh-Pays,
  go_on-ne-blocked, IsUnfinished, weigh-of, approval-of, forecast-of, costs-of,
}

module _ {F : Type 0} ⦃n : Number F⦄ ⦃np : Numpy F⦄ where
  -- A decision goes on, or it is blocked.
  abbrev Either : Option (Position F) → Decision F → Type 0
  Either position d = (d.action ≡ go_on position) ⊎ (d.action ≡ blocked position)

  -- A test that did not stop a decision which goes on.
  past :
      (position : Option (Position F)) (test : Bool) (stop rest : Decision F)
      → (go_on position ≡ stop.action → ⊥)
      → (if test then stop else rest).action ≡ go_on position
      → (test ≡ false) × (rest.action ≡ go_on position)
  past position true stop rest never h = absurd (never (sym h))
  past position false stop rest never h = (refl, h)

  go_on-ne-exit : (position : Option (Position F)) → go_on position ≡ Action.exit → ⊥
  go_on-ne-exit none h = cc
  go_on-ne-exit (some p) h = cc

  weigh_costs-Grounds :
      (s : CarryStrategy F) (now remaining : ℕ) (position : Option (Position F)) (samples : List F)
      (costs : Option (CostEstimate F))
      → (weigh_costs s now remaining position samples costs).action ≡ go_on position
      → (c : CostEstimate F) × (costs ≡ some c)
        × Prices s now remaining position c
        × Pays s.policy position samples (hurdle position c)
  unfolding weigh_costs
  weigh_costs-Grounds s now remaining position samples none h =
      absurd (go_on-ne-blocked position (sym h))
  weigh_costs-Grounds s now remaining position samples (some c) h =
      let (kept, weighed) =
        past position (costs_refused s now remaining position c) _ _ (go_on-ne-blocked position)
          h in
      (
        c,
        refl,
        Prices-of s now remaining position c kept,
        weigh-Pays s.policy position samples (hurdle position c) weighed,
      )

  no_approval :
      (symbol : String) (now remaining : ℕ) (f : FundingForecast F)
      → approval_missing symbol now remaining f none ≡ false
      → ⊥
  unfolding approval_missing
  no_approval symbol now remaining f h = cc

  weigh_costs-Either :
      (s : CarryStrategy F) (now remaining : ℕ) (position : Option (Position F)) (samples : List F)
      (costs : Option (CostEstimate F))
      → Either position (weigh_costs s now remaining position samples costs)
  unfolding weigh_costs weigh
  weigh_costs-Either s now remaining position samples none = inr refl
  weigh_costs-Either s now remaining position samples (some c) = ground arith

  assess-Either :
      (s : CarryStrategy F) (now remaining : ℕ) (forecast : Option (FundingForecast F))
      (costs : Option (CostEstimate F)) (approval : Option FundingApproval)
      (position : Option (Position F))
      → Either position (assess s now remaining forecast costs approval position)
  unfolding assess
  assess-Either s now remaining none costs approval position = inr refl
  assess-Either s now remaining (some f) costs approval none =
      ground (arith, weigh_costs-Either s now remaining none f.prediction.samples costs)
  assess-Either s now remaining (some f) costs approval (some p) =
      ground (arith, weigh_costs-Either s now remaining (some p) f.prediction.samples costs)

  assess-Grounds :
      (s : CarryStrategy F) (now : ℕ) (forecast : Option (FundingForecast F))
      (costs : Option (CostEstimate F)) (approval : Option FundingApproval)
      (position : Option (Position F))
      → IsUnfinished position
      → (assess s now (remaining_of s position) forecast costs approval position).action
        ≡ go_on position
      → Grounds s now forecast costs approval position
  unfolding assess
  assess-Grounds s now none costs approval position left h =
      absurd (go_on-ne-blocked position (sym h))
  assess-Grounds s now (some f) costs approval position left h =
      let settlements = remaining_of s position in
      let never = go_on-ne-blocked position in
      let (named, h₁) = past position (not (str_eq f.symbol s.symbol)) _ _ never h in
      let (cadence, h₂) =
        past position (changed_cadence position f.prediction) _ _ (go_on-ne-exit position) h₁ in
      let (valid, h₃) =
        past position (invalid_forecast now settlements f.prediction) _ _ never h₂ in
      let (approved, h₄) =
        past position (approval_missing s.symbol now settlements f approval) _ _ never h₃ in
      let (c, given, prices, pays) =
        weigh_costs-Grounds s now settlements position f.prediction.samples costs h₄ in
      by_approval approval approved c given prices pays (ground (arith, eq_iff f.symbol s.symbol))
        cadence (Forecasts-of now settlements f.prediction valid)
    where
      by_approval :
          (a : Option FundingApproval)
          → approval_missing s.symbol now (remaining_of s position) f a ≡ false
          → (c : CostEstimate F) → costs ≡ some c
          → Prices s now (remaining_of s position) position c
          → Pays s.policy position f.prediction.samples (hurdle position c)
          → f.symbol ≡ s.symbol
          → changed_cadence position f.prediction ≡ false
          → Forecasts now (remaining_of s position) f.prediction
          → Grounds s now (some f) costs a position
      by_approval none missing c given prices pays named cadence forecasts =
          absurd (no_approval s.symbol now (remaining_of s position) f missing)
      by_approval (some a) present c given prices pays named cadence forecasts = record {
        f = f;
        c = c;
        a = a;
        given_f = refl;
        given_c = given;
        given_a = refl;
        same_symbol = named;
        same_cadence = cadence;
        unfinished = left;
        approves = Approves-of s.symbol now (remaining_of s position) f a present;
        forecasts = forecasts;
        prices = prices;
        pays = pays;
      }

  -- Grounds are enough.
  Grounds-assess :
      (s : CarryStrategy F) (now : ℕ) (forecast : Option (FundingForecast F))
      (costs : Option (CostEstimate F)) (approval : Option FundingApproval)
      (position : Option (Position F))
      → Grounds s now forecast costs approval position
      → (assess s now (remaining_of s position) forecast costs approval position).action
        ≡ go_on position
  unfolding assess weigh_costs
  Grounds-assess s now forecast costs approval position g =
      let named : str_eq g.f.symbol s.symbol ≡ true =
        ground (arith, g.same_symbol, eq_iff g.f.symbol s.symbol) in
      rw
        (
          g.given_f,
          g.given_c,
          g.given_a,
          named,
          g.same_cadence,
          forecast-of now (remaining_of s position) g.f.prediction g.forecasts,
          approval-of s.symbol now (remaining_of s position) g.f g.a g.approves,
          costs-of s now (remaining_of s position) position g.c g.prices,
        )
        (weigh-of s.policy position g.f.prediction.samples (hurdle position g.c) g.pays)

  -- A decision enters, or holds a position, exactly when all of these are given: a forecast of the
  -- symbol made at that time, of finite samples, of recent observations and enough settlements; an
  -- approval in force of its model and interval, and costs in force on evidence that ended by then,
  -- all for the horizon at hand; no synthetic costs unless the policy admits them; a mean and a
  -- probability of the samples above what the costs and the policy ask; and for a held position also
  -- its interval and notional, and a settlement left.
  pub decide-Grounds :
      (s : CarryStrategy F) (now : ℕ) (forecast : Option (FundingForecast F))
      (costs : Option (CostEstimate F)) (approval : Option FundingApproval)
      (position : Option (Position F)) {d : Decision F}
      → decide s now forecast costs approval position ≡ ok d
      → (d.action ≡ go_on position) ↔ Grounds s now forecast costs approval position
  unfolding decide
  decide-Grounds s now forecast costs approval none h = (
    λ goes_on. assess-Grounds s now forecast costs approval none tt (ground arith),
    λ g. ground (arith, Grounds-assess s now forecast costs approval none g),
  )
  decide-Grounds s now forecast costs approval (some p) h = (
    λ goes_on. assess-Grounds s now forecast costs approval (some p) (ground arith) (ground arith),
    λ g. ground (arith, Grounds-assess s now forecast costs approval (some p) g, g.unfinished),
  )

  decide-Either :
      (s : CarryStrategy F) (now : ℕ) (forecast : Option (FundingForecast F))
      (costs : Option (CostEstimate F)) (approval : Option FundingApproval)
      (position : Option (Position F)) {d : Decision F}
      → decide s now forecast costs approval position ≡ ok d
      → Either position d
  unfolding decide
  decide-Either s now forecast costs approval none h =
      ground (arith, assess-Either s now (remaining_of s none) forecast costs approval none)
  decide-Either s now forecast costs approval (some p) h =
      ground (arith, assess-Either s now (remaining_of s (some p)) forecast costs approval (some p))

  -- Without grounds a decision fails closed: it waits where no position is held, and exits one that is.
  pub decide_closed :
      (s : CarryStrategy F) (now : ℕ) (forecast : Option (FundingForecast F))
      (costs : Option (CostEstimate F)) (approval : Option FundingApproval)
      (position : Option (Position F)) {d : Decision F}
      → decide s now forecast costs approval position ≡ ok d
      → (d.action ≡ blocked position) ⊎ Grounds s now forecast costs approval position
  decide_closed s now forecast costs approval position {d} h =
      either (decide-Either s now forecast costs approval position h)
    where
      either :
          Either position d
          → (d.action ≡ blocked position) ⊎ Grounds s now forecast costs approval position
      either (inl goes_on) =
          inr ((decide-Grounds s now forecast costs approval position h).0 goes_on)
      either (inr stops) = inl stops
