-- ===== src/Accounting/Replay.antt =====
-- Replays of events, which a ledger refuses.
use text.Mathlib.TextPositions.{eq_refl}
use perpetuals_carry_strateg.Base.{ℕ, String, true, ◌≡◌, refl, inl, inr, List, arith, Bool-cases}
use perpetuals_carry_strateg.Base.Result.{ok, err, Error}
use perpetuals_carry_strateg.Number.{Number}
use perpetuals_carry_strateg.Fees.{Market}
use perpetuals_carry_strateg.Accounting.State.{Ledger, Fill, contains, with_id, check_event}
use perpetuals_carry_strateg.Accounting.Fills.{fill, filled_on, check_fill}
use perpetuals_carry_strateg.Accounting.Payments.{
  settle, settled, finance, financed, check_settle, check_finance,
}
use perpetuals_carry_strateg.Accounting.Steps.{
  Event, apply, History, begun, after, fill-eq-ok, settle-eq-ok, finance-eq-ok,
}

module _ {D : Type 0} where
  abbrev pub id_of : Event D → String
  id_of (Event.trade_filled e) = e.event_id
  id_of (Event.funding_settled e) = e.event_id
  id_of (Event.cost_financed id t cost) = id

  check_event_replayed :
      (l : Ledger D) (id symbol : String) (t : ℕ)
      → contains id l.event_ids ≡ true
      → check_event l id symbol t ≡ err Error.value_error
  unfolding check_event
  check_event_replayed l id symbol t h = ground arith

pub contains-with_id_self : (ids : List String) (id : String) → contains id (with_id ids id) ≡ true
contains-with_id_self ids id = elim (Bool-cases (contains id ids)) [
  | inl old ↦ rw old old
  | inr new ↦ rw (new, eq_refl id)
]

pub contains-with_id :
    (ids : List String) (id other : String)
    → contains other ids ≡ true
    → contains other (with_id ids id) ≡ true
contains-with_id ids id other h = ground arith

module _ {D : Type 0} ⦃n : Number D⦄ where
  filled_on-event_ids :
      (m : Market) (l : Ledger D) (e : Fill D) (rate : D)
      → (filled_on m l e rate).event_ids ≡ with_id l.event_ids e.event_id
  unfolding filled_on
  filled_on-event_ids Market.spot l e rate = refl
  filled_on-event_ids Market.perp l e rate = refl

  apply-event_ids :
      (l : Ledger D) (e : Event D) {l' : Ledger D}
      → apply l e ≡ ok l'
      → l'.event_ids ≡ with_id l.event_ids (id_of e)
  unfolding apply settled financed
  apply-event_ids l (Event.trade_filled e) h =
      let (rate, _, _, _, same) = fill-eq-ok l e h in
      rw (← same) (filled_on-event_ids e.market l e rate)
  apply-event_ids l (Event.funding_settled e) h =
      let (mark, _, same) = settle-eq-ok l e h in rw (← same)
  apply-event_ids l (Event.cost_financed id t cost) h =
      let (_, same) = finance-eq-ok l id t cost h in rw (← same)

  History-contains :
      {first l : Ledger D} (id : String)
      → History first l
      → contains id first.event_ids ≡ true
      → contains id l.event_ids ≡ true
  History-contains id begun h = h
  History-contains id (after {l = l} e before accepted) h =
      rw (apply-event_ids l e accepted)
        (contains-with_id l.event_ids (id_of e) id (History-contains id before h))

  apply_replayed :
      (l : Ledger D) (e : Event D)
      → contains (id_of e) l.event_ids ≡ true
      → apply l e ≡ err Error.value_error
  unfolding apply fill settle finance check_fill check_settle check_finance
  apply_replayed l (Event.trade_filled e) h =
      rw (check_event_replayed l e.event_id e.symbol e.time_ms h)
  apply_replayed l (Event.funding_settled e) h =
      rw (check_event_replayed l e.event_id e.symbol e.time_ms h)
  apply_replayed l (Event.cost_financed id t cost) h = rw (check_event_replayed l id l.symbol t h)

  -- Once a ledger has accepted an event, every ledger that further events lead to refuses each
  -- event with the same identifier, whatever its kind and contents.
  pub replay_refused :
      (l : Ledger D) (e : Event D) {l' later : Ledger D} (again : Event D)
      → apply l e ≡ ok l'
      → History l' later
      → id_of again ≡ id_of e
      → apply later again ≡ err Error.value_error
  replay_refused l e {l'} {later} again accepted h same = apply_replayed later again (
      rw same (
        History-contains (id_of e) h
          (rw (apply-event_ids l e accepted) (contains-with_id_self l.event_ids (id_of e)))))
