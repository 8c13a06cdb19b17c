-- ===== src/WalkForward/Steps.antt =====
-- What an accepted event does to a run.
use mathlib.Core.Path.{subst}
use perpetuals_carry_strateg.Base.{
  ℕ, ◌≤◌, ◌<◌, String, false, not, ◌&&◌, ◌||◌, Option, ◌≡◌, refl, sym, ap, ◌∙◌, arith, leb, ltb,
  or_false,
}
use perpetuals_carry_strateg.Base.Text.{is_empty, joined}
use perpetuals_carry_strateg.Base.Result.{
  ok, Error, >>-eq-ok, >>=-eq-ok, raise_if-eq-ok, ok_injective,
}
use perpetuals_carry_strateg.Number.{Number, Conversions, ◌≼◌, nought}
use perpetuals_carry_strateg.Checks.{integer}
use perpetuals_carry_strateg.Accounting.State.{Ledger, contains, with_id}
use perpetuals_carry_strateg.Accounting.Payments.{financed, finance}
use perpetuals_carry_strateg.Accounting.Valuing.{value}
use perpetuals_carry_strateg.Accounting.Steps.{Event, apply, begun, after, finance-eq-ok}
use perpetuals_carry_strateg.Carry.Types.{Numpy}
use perpetuals_carry_strateg.Sizing.Market.{Rounding}
use perpetuals_carry_strateg.Execution.{MarketEvent}
use perpetuals_carry_strateg.WalkForward.{Config, Record, Environment, Runner}
use perpetuals_carry_strateg.WalkForward.Trading.{reserve, reserve_short, admit}
use perpetuals_carry_strateg.WalkForward.Stream.{arrive}
use perpetuals_carry_strateg.WalkForward.Market.{
  Decided, check_market, decided, next_decision, conclude_market, process_market,
}
use perpetuals_carry_strateg.WalkForward.Keeps.{admit-IsAdmitted}
use perpetuals_carry_strateg.WalkForward.Safe.{
  IsBalanced, IsSafe, IsSafe-trans, admit-IsSafe, decided-IsSafe,
}

module _ {D F : Type 0} where
  -- An event that arrives is new and in order, in the window and not past the next decision.
  pub record IsArrived (config : Config D F) (r : Runner D F) (id : String) (t : ℕ)
      (r' : Runner D F) : Type 0 where
    pub fresh : contains id r.ids ≡ false
    pub in_order : r.last_time ≤ t
    pub before_end : t < config.end_ms
    pub scheduled : config.start_ms ≤ t → t ≤ r.next_decision_ms
    pub same : record r { last_time = t; ids = with_id r.ids id } ≡ r'

  pub arrive-IsArrived :
      (config : Config D F) (r : Runner D F) (id : String) (t : ℕ) {r' : Runner D F}
      → arrive config r id t ≡ ok r'
      → IsArrived config r id t r'
  unfolding arrive
  arrive-IsArrived config r id t h =
      let (_, h₁) = >>-eq-ok (integer t 0) _ h in
      let (a, h₂) =
        raise_if-eq-ok (is_empty id || (contains id r.ids || ltb t r.last_time)) Error.value_error _
          h₁ in
      let (b, h₃) =
        raise_if-eq-ok (not (leb config.warmup_start_ms t && ltb t config.end_ms)) Error.value_error
          _ h₂ in
      let (c, h₄) =
        raise_if-eq-ok (leb config.start_ms t && ltb r.next_decision_ms t) Error.value_error _ h₃ in
      let (_, a₁) = or_false (is_empty id) _ a in
      let (fresh, a₂) = or_false (contains id r.ids) _ a₁ in
      record {
        fresh = fresh;
        in_order = ground arith;
        before_end = ground arith;
        scheduled = λ k. ground arith;
        same = ok_injective h₄;
      }

module _ {D F : Type 0} ⦃d : Number D⦄ where
  pub reserve-eq-ok :
      (config : Config D F) (l : Ledger D) (mark : D)
      → reserve config l mark ≡ ok tt
      → reserve_short config l mark ≡ false
  unfolding reserve
  reserve-eq-ok config l mark h =
      (raise_if-eq-ok (reserve_short config l mark) Error.execution_unavailable _ h).0

  financed-IsSafe :
      (r : Runner D F) (id : String) (t : ℕ) (cost : D) {l : Ledger D}
      → finance r.ledger id t cost ≡ ok l
      → IsSafe r (record r { ledger = l })
  unfolding financed apply
  financed-IsSafe r id t cost h =
      let (_, same) = finance-eq-ok r.ledger id t cost h in
      record {
        keeps = record {
          history = after (Event.cost_financed id t cost) begun h;
          model = refl;
          last_time = refl;
          ids = refl;
          next_observation = refl;
          next_decision = refl;
          sealed = λ fold digest k. k;
        };
        balanced = λ exact b.
            subst (λ l. IsBalanced (record r { ledger = l })) same
              (record { hedged = b.hedged; flat = b.flat });
      }

  -- The next decision may move on with the run.
  advance-IsSafe :
      (f : ℕ → ℕ) {r r' : Runner D F}
      → IsSafe r r'
      → IsSafe
          (record r { next_decision_ms = f r.next_decision_ms })
          (record r' { next_decision_ms = f r'.next_decision_ms })
  advance-IsSafe f s = record {
    keeps = record {
      history = s.keeps.history;
      model = s.keeps.model;
      last_time = s.keeps.last_time;
      ids = s.keeps.ids;
      next_observation = s.keeps.next_observation;
      next_decision = ap f s.keeps.next_decision;
      sealed = s.keeps.sealed;
    };
    balanced = λ exact b.
        let after_all = s.balanced exact (record { hedged = b.hedged; flat = b.flat }) in
        record { hedged = after_all.hedged; flat = after_all.flat };
  }

module _ {D F Summary : Type 0} ⦃d : Number D⦄ ⦃n : Number F⦄ ⦃v : Conversions D F⦄
    ⦃rd : Rounding D⦄ ⦃np : Numpy F⦄ (env : Environment D F Summary) where
  -- What a market event leaves: a run that is safe but for the next decision, with collateral.
  pub record IsMarketStep (r : Runner D F) (event : MarketEvent D F) (r' : Runner D F)
      : Type 0 where
    pub checked : check_market env r event ≡ ok tt
    pub safe :
        IsSafe
          (record r { next_decision_ms = next_decision env event.decide r.next_decision_ms })
          r'
    pub covered : reserve_short env.config r'.ledger event.marks.perp ≡ false

  conclude_market-IsSafe :
      (event : MarketEvent D F) (x : Decided env) {r' : Runner D F}
      {scored : Option (Record D F Summary)}
      → conclude_market env event x ≡ ok (r', scored)
      → IsSafe
          (record x.0 { next_decision_ms = next_decision env event.decide x.0.next_decision_ms })
          r'
        × (reserve_short env.config r'.ledger event.marks.perp ≡ false)
  unfolding conclude_market reserve
  conclude_market-IsSafe event (r, (decision, (forecast, result))) {r'} h =
      let (valuation, _, h₁) = >>=-eq-ok (value r.ledger event.marks) _ h in
      let (kept, h₂) = >>-eq-ok (reserve env.config r.ledger event.marks.perp) _ h₁ in
      let covered = reserve-eq-ok env.config r.ledger event.marks.perp kept in
      let scheduled : Runner D F = record r {
        next_decision_ms = next_decision env event.decide r.next_decision_ms;
      } in
      let (admitted, a, done) = >>=-eq-ok (admit env.config scheduled event) _ h₂ in
      let same : admitted.0 ≡ r' = ap (λ p. p.0) (ok_injective done) in
      let safe = admit-IsSafe env.config scheduled event a in
      let ledger : admitted.0.ledger ≡ r.ledger =
        ap (λ x. x.ledger) (sym (admit-IsAdmitted env.config scheduled event a).same) in
      subst (λ x. IsSafe scheduled x × (reserve_short env.config x.ledger event.marks.perp ≡ false))
        same (safe, ap (λ l. reserve_short env.config l event.marks.perp) ledger ∙ covered)

  pub process_market-IsMarketStep :
      (r : Runner D F) (event : MarketEvent D F) {r' : Runner D F}
      {scored : Option (Record D F Summary)}
      → process_market env r event ≡ ok (r', scored)
      → IsMarketStep r event r'
  unfolding process_market
  process_market-IsMarketStep r event h =
      let (checked, h₁) = >>-eq-ok (check_market env r event) _ h in
      let (l, financed, h₂) =
        >>=-eq-ok
          (finance r.ledger (joined event.event_id ":finance") event.time_ms event.financing_usdt) _
          h₁ in
      let (valuation, _, h₃) = >>=-eq-ok (value l event.marks) _ h₂ in
      let (_, h₄) = >>-eq-ok (reserve env.config l event.marks.perp) _ h₃ in
      let (_, h₅) =
        raise_if-eq-ok (valuation.net_equity_usdt ≼ nought) Error.execution_unavailable _ h₄ in
      let (x, decision, h₆) = >>=-eq-ok (decided env (record r { ledger = l }) event) _ h₅ in
      let (last, covered) = conclude_market-IsSafe event x h₆ in
      let first =
        IsSafe-trans (financed-IsSafe r _ _ _ financed) (decided-IsSafe env _ event decision) in
      record {
        checked = checked;
        safe = IsSafe-trans (advance-IsSafe (next_decision env event.decide) first) last;
        covered = covered;
      }
