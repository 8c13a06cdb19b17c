-- ===== src/Accounting/Order.antt =====
-- Time, funding boundaries and event identifiers along the history of a ledger, and the sides of
-- its legs.
use mathlib.Core.Path.{subst}
use perpetuals_carry_strateg.Base.{
  ℕ, ◌+◌, ◌-◌, ◌*◌, ◌%◌, ◌≤◌, ◌<◌, String, true, false, ◌≡◌, Option, none, some, arith, ltb→ge,
  or_false,
}
use perpetuals_carry_strateg.Base.Text.{is_empty}
use perpetuals_carry_strateg.Base.Result.{ok, >>-eq-ok, raise_if-eq-ok}
use perpetuals_carry_strateg.Number.{Number}
use perpetuals_carry_strateg.Checks.{timestamp}
use perpetuals_carry_strateg.Fees.{Market, market_eq, FeeSchedule}
use perpetuals_carry_strateg.Accounting.State.{
  Ledger, Fill, FundingSettlement, start, hour_ms, settlement_guard_ms, contains, check_event,
  just_settled,
}
use perpetuals_carry_strateg.Accounting.Fills.{filled_on, check_fill}
use perpetuals_carry_strateg.Accounting.Payments.{settled, financed, check_settle, check_finance}
use perpetuals_carry_strateg.Accounting.Steps.{
  Event, apply, History, begun, after, fill-eq-ok, settle-eq-ok, finance-eq-ok, start-eq-ok,
}

-- The last settlement was at most a day before the next one, which is on the hour and not passed.
abbrev pub IsSettledBy : Option ℕ → ℕ → ℕ → Type 0
IsSettledBy none time next = Unit {0}
IsSettledBy (some last) time next =
    (last ≤ time) × (last + hour_ms ≤ next) × (next ≤ last + 24 * hour_ms)

module _ {D : Type 0} where
  pub check_event-eq-ok :
      (l : Ledger D) (id symbol : String) (t : ℕ)
      → check_event l id symbol t ≡ ok tt
      → (contains id l.event_ids ≡ false) × (l.time_ms ≤ t)
  unfolding check_event
  check_event-eq-ok l id symbol t h =
      let (refused, _) = raise_if-eq-ok _ _ _ (>>-eq-ok (timestamp t) _ h).1 in
      let (_, r) = or_false (is_empty id) _ refused in
      let (fresh, r') = or_false (contains id l.event_ids) _ r in
      (fresh, ltb→ge _ _ (or_false _ _ r').1)

module _ {D : Type 0} ⦃n : Number D⦄ where
  -- What a fill that passes its guards keeps clear of.
  pub record IsTimely (l : Ledger D) (e : Fill D) : Type 0 where
    pub fresh : contains e.event_id l.event_ids ≡ false
    pub after_last : l.time_ms ≤ e.time_ms
    pub before_next : e.time_ms < l.next_funding_ms
    pub clear :
        (market_eq e.market Market.perp ≡ true)
        → (settlement_guard_ms < l.next_funding_ms - e.time_ms)
          × (just_settled l.last_funding_ms e.time_ms ≡ false)

  pub check_fill-IsTimely : (l : Ledger D) (e : Fill D) → check_fill l e ≡ ok tt → IsTimely l e
  unfolding check_fill
  check_fill-IsTimely l e h = ground (arith, check_event-eq-ok l e.event_id e.symbol e.time_ms)

  pub record IsOrderly (l : Ledger D) : Type 0 where
    pub not_passed : l.time_ms ≤ l.next_funding_ms
    pub aligned : l.next_funding_ms % hour_ms ≡ 0
    pub settled_by : IsSettledBy l.last_funding_ms l.time_ms l.next_funding_ms

  filled_on-IsOrderly :
      (m : Market) (l : Ledger D) (e : Fill D) (rate : D)
      → IsTimely l e
      → IsOrderly l
      → IsOrderly (filled_on m l e rate)
  unfolding filled_on
  filled_on-IsOrderly Market.spot l e rate t o = ground arith
  filled_on-IsOrderly Market.perp l e rate t o = ground arith

  pub check_settle-eq-ok :
      (l : Ledger D) (e : FundingSettlement D) {mark : D}
      → check_settle l e ≡ ok mark
      → (e.mark_price ≡ some mark)
        × (contains e.event_id l.event_ids ≡ false)
        × (e.time_ms ≡ l.next_funding_ms)
        × (1 ≤ e.interval_hours)
        × (e.interval_hours ≤ 24)
  unfolding check_settle
  check_settle-eq-ok l e h = ground (arith, check_event-eq-ok l e.event_id e.symbol e.time_ms)

  settled-IsOrderly :
      (l : Ledger D) (e : FundingSettlement D) (mark : D)
      → check_settle l e ≡ ok mark
      → IsOrderly l
      → IsOrderly (settled l e mark)
  unfolding settled
  settled-IsOrderly l e mark h o =
      let (_, _, due, at_least, at_most) = check_settle-eq-ok l e h in omega arith

  pub check_finance-eq-ok :
      (l : Ledger D) (id : String) (t : ℕ) (cost : D)
      → check_finance l id t cost ≡ ok tt
      → (contains id l.event_ids ≡ false) × (l.time_ms ≤ t) × (t < l.next_funding_ms)
  unfolding check_finance
  check_finance-eq-ok l id t cost h = ground (arith, check_event-eq-ok l id l.symbol t)

  apply-IsOrderly :
      (l : Ledger D) (e : Event D) {l' : Ledger D} → apply l e ≡ ok l' → IsOrderly l → IsOrderly l'
  unfolding apply financed
  apply-IsOrderly l (Event.trade_filled e) h o =
      let (rate, checked, _, _, same) = fill-eq-ok l e h in
      subst IsOrderly same
        (filled_on-IsOrderly e.market l e rate (check_fill-IsTimely l e checked) o)
  apply-IsOrderly l (Event.funding_settled e) h o =
      let (mark, checked, same) = settle-eq-ok l e h in
      subst IsOrderly same (settled-IsOrderly l e mark checked o)
  apply-IsOrderly l (Event.cost_financed id t cost) h o =
      let (checked, same) = finance-eq-ok l id t cost h in
      let (_, later, before) = check_finance-eq-ok l id t cost checked in
      subst IsOrderly same (ground arith)

  -- On every ledger that events lead to from its start, the clock has not passed the next funding
  -- boundary, which is on the hour, and the last settlement is one to twenty-four hours before it.
  pub History-IsOrderly :
      (symbol : String) (capital : D) (next : ℕ) (fees : FeeSchedule D) {first l : Ledger D}
      → start symbol capital next fees ≡ ok first
      → History first l
      → IsOrderly l
  History-IsOrderly symbol capital next fees s begun =
      let (aligned, same) = start-eq-ok symbol capital next fees s in
      subst IsOrderly same (record { not_passed = omega arith; aligned = aligned; settled_by = tt })
  History-IsOrderly symbol capital next fees s (after e h accepted) =
      apply-IsOrderly _ e accepted (History-IsOrderly symbol capital next fees s h)
