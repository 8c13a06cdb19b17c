-- ===== src/Accounting/Boundaries.antt =====
-- Fills of the perpetual and the settlements around them, along the history of a ledger.
use mathlib.Core.Path.{subst}
use perpetuals_carry_strateg.Base.{
  ℕ, ◌+◌, ◌≤◌, ◌<◌, true, false, ◌≡◌, refl, sym, ap, ◌⊎◌, inl, inr, Option, none, some, arith,
}
use perpetuals_carry_strateg.Base.Result.{ok}
use perpetuals_carry_strateg.Number.{Number}
use perpetuals_carry_strateg.Fees.{Market, market_eq}
use perpetuals_carry_strateg.Accounting.State.{
  Ledger, Fill, FundingSettlement, just_settled, settlement_guard_ms,
}
use perpetuals_carry_strateg.Accounting.Fills.{fill, filled_on}
use perpetuals_carry_strateg.Accounting.Payments.{settle, settled, financed}
use perpetuals_carry_strateg.Accounting.Steps.{
  Event, apply, History, begun, after, fill-eq-ok, settle-eq-ok, finance-eq-ok,
}
use perpetuals_carry_strateg.Accounting.Order.{check_fill-IsTimely, check_settle-eq-ok}

-- There was a settlement at a time or later.
abbrev SettledSince : ℕ → Option ℕ → Type 0
SettledSince t none = ⊥
SettledSince t (some last) = t ≤ last

after_guard :
    (s t : ℕ) (last : Option ℕ)
    → SettledSince s last
    → just_settled last t ≡ false
    → s + settlement_guard_ms < t
after_guard s t none h clear = absurd h
after_guard s t (some last) h clear = ground arith

module _ {D : Type 0} ⦃n : Number D⦄ where
  -- The boundaries that an event leaves: the next one is not earlier, and the last one is kept, or
  -- it is the next one passed.
  record Advances (l l' : Ledger D) : Type 0 where
    next : l.next_funding_ms ≤ l'.next_funding_ms
    last : (l'.last_funding_ms ≡ l.last_funding_ms) ⊎ (l'.last_funding_ms ≡ some l.next_funding_ms)

  filled_on-Advances :
      (m : Market) (l : Ledger D) (e : Fill D) (rate : D) → Advances l (filled_on m l e rate)
  unfolding filled_on
  filled_on-Advances Market.spot l e rate = record { next = omega arith; last = inl refl }
  filled_on-Advances Market.perp l e rate = record { next = omega arith; last = inl refl }

  settled-Advances :
      (l : Ledger D) (s : FundingSettlement D) (mark : D)
      → s.time_ms ≡ l.next_funding_ms
      → Advances l (settled l s mark)
  unfolding settled
  settled-Advances l s mark due = record { next = omega arith; last = inr (ap some due) }

  apply-Advances : (l : Ledger D) (e : Event D) {l' : Ledger D} → apply l e ≡ ok l' → Advances l l'
  unfolding apply financed
  apply-Advances l (Event.trade_filled e) h =
      let (rate, _, _, _, same) = fill-eq-ok l e h in
      subst (Advances l) same (filled_on-Advances e.market l e rate)
  apply-Advances l (Event.funding_settled s) h =
      let (mark, checked, same) = settle-eq-ok l s h in
      let (_, _, due, _, _) = check_settle-eq-ok l s checked in
      subst (Advances l) same (settled-Advances l s mark due)
  apply-Advances l (Event.cost_financed id t cost) h =
      let (_, same) = finance-eq-ok l id t cost h in
      subst (Advances l) same (record { next = omega arith; last = inl refl })

  History-next : {l l' : Ledger D} → History l l' → l.next_funding_ms ≤ l'.next_funding_ms
  History-next begun = omega arith
  History-next (after {l = l} e before accepted) =
      omega (arith, History-next before, (apply-Advances l e accepted).next)

  -- A settlement stays behind the last and the next boundary.
  History-SettledSince :
      (t : ℕ) {l l' : Ledger D}
      → History l l'
      → SettledSince t l.last_funding_ms
      → t ≤ l.next_funding_ms
      → SettledSince t l'.last_funding_ms
  History-SettledSince t begun h h' = h
  History-SettledSince t (after {l = l} e before accepted) h h' =
      let since = History-SettledSince t before h h' in
      let bound = History-next before in
      by_last (apply-Advances l e accepted).last since (omega (arith, bound, h'))
    where
      by_last :
          {old new : Option ℕ} {next : ℕ}
          → (new ≡ old) ⊎ (new ≡ some next)
          → SettledSince t old
          → t ≤ next
          → SettledSince t new
      by_last (inl same) since later = subst (SettledSince t) (sym same) since
      by_last (inr passed) since later = subst (SettledSince t) (sym passed) later

  fill-before-settle :
      (e : Fill D) (s : FundingSettlement D) (l m : Ledger D) {l' m' : Ledger D}
      → market_eq e.market Market.perp ≡ true
      → fill l e ≡ ok l'
      → History l' m
      → settle m s ≡ ok m'
      → e.time_ms + settlement_guard_ms < s.time_ms
  fill-before-settle e s l m perp f h k =
      let (rate, checked, _, _, same) = fill-eq-ok l e f in
      let (clear, _) = (check_fill-IsTimely l e checked).clear perp in
      let kept =
        subst (λ x. l.next_funding_ms ≤ x.next_funding_ms) same
          (filled_on-Advances e.market l e rate).next in
      let (mark, due_checked, _) = settle-eq-ok m s k in
      let (_, _, due, _, _) = check_settle-eq-ok m s due_checked in
      omega (arith, clear, kept, History-next h, due)

  settle-before-fill :
      (e : Fill D) (s : FundingSettlement D) (l m : Ledger D) {l' m' : Ledger D}
      → market_eq e.market Market.perp ≡ true
      → settle m s ≡ ok m'
      → History m' l
      → fill l e ≡ ok l'
      → s.time_ms + settlement_guard_ms < e.time_ms
  unfolding settled
  settle-before-fill e s l m perp k h f =
      let (mark, due_checked, same) = settle-eq-ok m s k in
      let last = subst (λ x. SettledSince s.time_ms x.last_funding_ms) same (omega arith) in
      let next = subst (λ x. s.time_ms ≤ x.next_funding_ms) same (omega arith) in
      let (rate, checked, _, _, _) = fill-eq-ok l e f in
      let (_, clear) = (check_fill-IsTimely l e checked).clear perp in
      after_guard s.time_ms e.time_ms l.last_funding_ms (History-SettledSince s.time_ms h last next)
        clear

  -- A fill of the perpetual and a settlement that one history accepts are more than the guard apart,
  -- whichever comes first and whatever comes between them.
  pub perp_fill-settle_apart :
      (e : Fill D) (s : FundingSettlement D) (l m : Ledger D) {l' m' : Ledger D}
      → market_eq e.market Market.perp ≡ true
      → fill l e ≡ ok l'
      → settle m s ≡ ok m'
      → History l' m ⊎ History m' l
      → (e.time_ms + settlement_guard_ms < s.time_ms)
        ⊎ (s.time_ms + settlement_guard_ms < e.time_ms)
  perp_fill-settle_apart e s l m perp f k (inl filled_first) =
      inl (fill-before-settle e s l m perp f filled_first k)
  perp_fill-settle_apart e s l m perp f k (inr settled_first) =
      inr (settle-before-fill e s l m perp k settled_first f)
