-- ===== src/Accounting/Steps.antt =====
-- The events of a ledger in sequence, and what each that is accepted has passed and changed.
use mathlib.Core.Path.{subst}
use perpetuals_carry_strateg.Base.{arith, ◌∙◌, ◌%◌, ℕ, String, false, ◌≡◌, refl, List, [], ◌∷◌}
use perpetuals_carry_strateg.Base.Result.{
  Result, ok, ◌>>=◌, >>=-eq-ok, >>-eq-ok, raise_if-eq-ok, ok_injective,
}
use perpetuals_carry_strateg.Number.{Number}
use perpetuals_carry_strateg.Fees.{Market, FeeSchedule, quote}
use perpetuals_carry_strateg.Accounting.State.{
  Ledger, Fill, FundingSettlement, start, started, hour_ms,
}
use perpetuals_carry_strateg.Accounting.Fills.{
  traded, filled_on, filled, fill, check_fill, reverses,
}
use perpetuals_carry_strateg.Accounting.Payments.{
  settled, settle, financed, finance, check_settle, check_finance,
}

pub data Event (D : Type 0) : Type 0 where
  trade_filled : Fill D → Event D
  funding_settled : FundingSettlement D → Event D
  cost_financed : String → ℕ → D → Event D

module _ {D : Type 0} ⦃n : Number D⦄ where
  unfoldable pub apply : Ledger D → Event D → Result (Ledger D)
  apply l (Event.trade_filled event) = fill l event
  apply l (Event.funding_settled event) = settle l event
  apply l (Event.cost_financed event_id time_ms cost) = finance l event_id time_ms cost

  pub fill-eq-ok :
      (l : Ledger D) (e : Fill D) {l' : Ledger D}
      → fill l e ≡ ok l'
      → (rate : D) × (check_fill l e ≡ ok tt)
        × (reverses e.market (traded e.market l e).0.quantity ≡ false)
        × (quote l.fees l.symbol e.market e.time_ms ≡ ok rate)
        × (filled l e rate ≡ l')
  unfolding fill
  fill-eq-ok l e h =
      let (checked, rest) = >>-eq-ok (check_fill l e) _ h in
      let (kept, rest') = raise_if-eq-ok _ _ _ rest in
      let (rate, quoted, done) = >>=-eq-ok (quote l.fees l.symbol e.market e.time_ms) _ rest' in
      (rate, checked, kept, quoted, ok_injective done)

  pub settle-eq-ok :
      (l : Ledger D) (e : FundingSettlement D) {l' : Ledger D}
      → settle l e ≡ ok l'
      → (mark : D) × (check_settle l e ≡ ok mark) × (settled l e mark ≡ l')
  unfolding settle
  settle-eq-ok l e h =
      let (mark, checked, done) = >>=-eq-ok (check_settle l e) _ h in
      (mark, checked, ok_injective done)

  pub finance-eq-ok :
      (l : Ledger D) (id : String) (t : ℕ) (cost : D) {l' : Ledger D}
      → finance l id t cost ≡ ok l'
      → (check_finance l id t cost ≡ ok tt) × (financed l id t cost ≡ l')
  unfolding finance
  finance-eq-ok l id t cost h =
      let (checked, done) = >>-eq-ok (check_finance l id t cost) _ h in (checked, ok_injective done)

-- The ledgers that a ledger can come to, event by event.
pub data History {D : Type 0} ⦃n : Number D⦄ (first : Ledger D) : Ledger D → Type 0 where
  begun : History first first
  after : {l l' : Ledger D} (e : Event D) → History first l → apply l e ≡ ok l' → History first l'

module _ {D : Type 0} ⦃n : Number D⦄ where
  filled_on-capital :
      (m : Market) (l : Ledger D) (e : Fill D) (rate : D)
      → (filled_on m l e rate).initial_capital_usdt ≡ l.initial_capital_usdt
  unfolding filled_on
  filled_on-capital Market.spot l e rate = refl
  filled_on-capital Market.perp l e rate = refl

  apply-capital :
      (l : Ledger D) (e : Event D) {l' : Ledger D}
      → apply l e ≡ ok l'
      → l'.initial_capital_usdt ≡ l.initial_capital_usdt
  unfolding apply settled financed
  apply-capital l (Event.trade_filled e) h =
      let (rate, _, _, _, same) = fill-eq-ok l e h in
      rw (← same) (filled_on-capital e.market l e rate)
  apply-capital l (Event.funding_settled e) h =
      let (mark, _, same) = settle-eq-ok l e h in rw (← same)
  apply-capital l (Event.cost_financed id t cost) h =
      let (_, same) = finance-eq-ok l id t cost h in rw (← same)

  pub History-capital :
      {first l : Ledger D} → History first l → l.initial_capital_usdt ≡ first.initial_capital_usdt
  History-capital begun = refl
  History-capital (after e h accepted) = apply-capital _ e accepted ∙ History-capital h

  pub start-eq-ok :
      (symbol : String) (capital : D) (next : ℕ) (fees : FeeSchedule D) {l : Ledger D}
      → start symbol capital next fees ≡ ok l
      → (next % hour_ms ≡ 0) × (started symbol capital next fees ≡ l)
  unfolding start
  start-eq-ok symbol capital next fees h = ground arith

  pub start-capital :
      (symbol : String) (capital : D) (next : ℕ) (fees : FeeSchedule D) {l : Ledger D}
      → start symbol capital next fees ≡ ok l
      → l.initial_capital_usdt ≡ capital
  start-capital symbol capital next fees h = rw (← (start-eq-ok symbol capital next fees h).1)

  -- A list of events, up to the first that is refused.
  unfoldable pub run : Ledger D → List (Event D) → Result (Ledger D)
  unfolding apply
  run l [] = ok l
  run l (e ∷ es) = apply l e >>= λ l'. run l' es

  unfoldable pub run-History :
      {first : Ledger D} (l : Ledger D) (es : List (Event D)) {l' : Ledger D}
      → History first l
      → run l es ≡ ok l'
      → History first l'
  unfolding run
  run-History {first} l [] h same = subst (History first) (ok_injective same) h
  run-History l (e ∷ es) h done =
      let (next, accepted, rest) = >>=-eq-ok (apply l e) (λ l'. run l' es) done in
      run-History next es (after e h accepted) rest
