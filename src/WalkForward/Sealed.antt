-- ===== src/WalkForward/Sealed.antt =====
-- What a run does not undo: identifiers, sealed folds, collateral, and the records that it has
-- yielded.
use mathlib.Core.Path.{subst}
use mathlib.Core.Option.{some-injective}
use perpetuals_carry_strateg.Base.{
  ℕ, String, true, false, Option, some, ◌≡◌, refl, sym, ap, ◌∙◌, arith, Bool-cases, inl, inr, ltb,
  if◌then◌else◌,
}
use perpetuals_carry_strateg.Base.Text.{is_empty}
use perpetuals_carry_strateg.Base.Result.{ok, err, Error}
use perpetuals_carry_strateg.Number.{Number, Conversions, ◌⊕◌, ◌⊖◌, ◌⊗◌, ◌≺◌, nought, negate}
use perpetuals_carry_strateg.Number.Laws.{IsExact}
use perpetuals_carry_strateg.Number.Linear.{add_right_cancel}
use perpetuals_carry_strateg.Accounting.Leg.{unrealized}
use perpetuals_carry_strateg.Checks.{integer}
use perpetuals_carry_strateg.Accounting.State.{Ledger, contains, with_id}
use perpetuals_carry_strateg.Accounting.Replay.{contains-with_id_self, contains-with_id}
use perpetuals_carry_strateg.Carry.Types.{Numpy}
use perpetuals_carry_strateg.Sizing.Market.{Rounding}
use perpetuals_carry_strateg.Execution.{MarketEvent, Opportunity}
use perpetuals_carry_strateg.WalkForward.{Config, StreamEvent, Record, Environment, Runner}
use perpetuals_carry_strateg.WalkForward.Trading.{curve_of, reserve_short, admit}
use perpetuals_carry_strateg.WalkForward.Stream.{arrive, begin}
use perpetuals_carry_strateg.WalkForward.Balance.{IsHedged}
use perpetuals_carry_strateg.WalkForward.Process.{process}
use perpetuals_carry_strateg.WalkForward.Keeps.{Extends, admit-IsAdmitted}
use perpetuals_carry_strateg.WalkForward.Run.{
  id_of, Run, idle, onward, Run-IsSound, IsProcessed, funded, marketed, process-IsProcessed,
}

-- What is held is what is owed.
spot-eq-negate :
    {D : Type 0} ⦃d : Number D⦄
    → IsExact D
    → (l : Ledger D) → IsHedged l
    → l.spot.quantity ≡ negate l.perp.quantity
spot-eq-negate exact l hedged =
    add_right_cancel exact _ _ l.perp.quantity
      (hedged ∙ sym (exact.add_comm _ _ ∙ exact.add-negate l.perp.quantity))

module _ {D F : Type 0} ⦃d : Number D⦄ where
  -- The cash with the unrealized profit of the perpetual is at least the fraction of the collateral
  -- of what the spot that is held is worth at a mark.
  abbrev pub IsCovered : Config D F → Ledger D → D → Type 0
  IsCovered config l mark =
      (l.cash_usdt ⊕ (l.perp.quantity ⊗ mark ⊖ l.perp.basis_usdt)
        ≺ l.spot.quantity ⊗ mark ⊗ config.collateral_fraction)
      ≡ false

module _ {D F Summary : Type 0} ⦃d : Number D⦄ ⦃n : Number F⦄ ⦃v : Conversions D F⦄
    ⦃rd : Rounding D⦄ ⦃np : Numpy F⦄ (env : Environment D F Summary) where
  processed-ids :
      {r r' : Runner D F} {event : StreamEvent D F} → IsProcessed env r r' event → r'.ids ≡ r.ids
  processed-ids (funded f) = f.safe.keeps.ids
  processed-ids (marketed m) = m.safe.keeps.ids

  process-ids :
      (r : Runner D F) (event : StreamEvent D F) {r' : Runner D F}
      {scored : Option (Record D F Summary)}
      → process env r event ≡ ok (r', scored)
      → r'.ids ≡ with_id r.ids (id_of event)
  process-ids r event h =
      let (arrived, a, p) = process-IsProcessed env r event h in
      processed-ids p ∙ ap (λ x. x.ids) (sym a.same)

  Run-contains :
      (id : String) {first r : Runner D F}
      → contains id first.ids ≡ true
      → Run env first r
      → contains id r.ids ≡ true
  Run-contains id h idle = h
  Run-contains id h (onward {r} event run accepted) =
      subst (λ ids. contains id ids ≡ true) (sym (process-ids r event accepted))
        (contains-with_id r.ids (id_of event) id (Run-contains id h run))

  arrive_replayed :
      (config : Config D F) (r : Runner D F) (id : String) (t : ℕ)
      → contains id r.ids ≡ true
      → arrive config r id t ≡ err Error.value_error
  unfolding arrive integer
  arrive_replayed config r id t h =
      let counted : ltb t 0 ≡ false = ground arith in
      elim (Bool-cases (is_empty id)) [
        | inl empty ↦ rw (counted, empty) refl
        | inr named ↦ rw (counted, named, h) refl
      ]

  process_replayed :
      (r : Runner D F) (event : StreamEvent D F)
      → contains (id_of event) r.ids ≡ true
      → process env r event ≡ err Error.value_error
  unfolding process
  process_replayed r (StreamEvent.funding event) h =
      rw (arrive_replayed env.config r event.event_id event.time_ms h) refl
  process_replayed r (StreamEvent.market event) h =
      rw (arrive_replayed env.config r event.event_id event.time_ms h) refl

  -- Once a run has accepted an event, it refuses every later event with the same identifier.
  pub repeat_refused :
      (r : Runner D F) (event again : StreamEvent D F) {r' r'' : Runner D F}
      {scored : Option (Record D F Summary)}
      → process env r event ≡ ok (r', scored)
      → Run env r' r''
      → id_of again ≡ id_of event
      → process env r'' again ≡ err Error.value_error
  repeat_refused r event again {r'} {r''} h run same =
      let noted =
        subst (λ ids. contains (id_of event) ids ≡ true) (sym (process-ids r event h))
          (contains-with_id_self r.ids (id_of event)) in
      process_replayed r'' again
        (subst (λ id. contains id r''.ids ≡ true) (sym same) (Run-contains (id_of event) noted run))

  processed-Extends :
      {r r' : Runner D F} {event : StreamEvent D F}
      → IsProcessed env r r' event
      → Extends r.fold_curves r'.fold_curves
  processed-Extends (funded f) = f.safe.keeps.sealed
  processed-Extends (marketed m) = m.safe.keeps.sealed

  Run-Extends : {first r : Runner D F} → Run env first r → Extends first.fold_curves r.fold_curves
  Run-Extends idle = λ fold digest h. h
  Run-Extends (onward {r} event run accepted) = λ fold digest h.
      let (arrived, a, p) = process-IsProcessed env r event accepted in
      let before = ap (λ x. x.fold_curves) a.same in
      processed-Extends p fold digest
        (subst (λ c. curve_of fold c ≡ some digest) before (Run-Extends run fold digest h))

  -- A monthly fold is sealed: when a run has once admitted an opportunity of the fold, every
  -- opportunity of the fold that it admits later has the same impact artifact.
  pub Run-IsSealed :
      (r : Runner D F) (event later : MarketEvent D F) {o o' : Opportunity D F}
      {r' r'' r₃ : Runner D F}
      → admit env.config r event ≡ ok (r', some o)
      → Run env r' r''
      → admit env.config r'' later ≡ ok (r₃, some o')
      → o'.fold_start_ms ≡ o.fold_start_ms
      → o'.curve.artifact_sha256 ≡ o.curve.artifact_sha256
  Run-IsSealed r event later {o} {o'} {r'} {r''} {r₃} h run h' same =
      let a = admit-IsAdmitted env.config r event h in
      let b = admit-IsAdmitted env.config r'' later h' in
      let (_, _, sealed_first) = a.accepted o refl in
      let (_, _, sealed_later) = b.accepted o' refl in
      let first_seal =
        ap (curve_of o.fold_start_ms) (ap (λ x. x.fold_curves) (sym a.same)) ∙ sealed_first in
      let kept = b.extends o.fold_start_ms _ (Run-Extends run o.fold_start_ms _ first_seal) in
      some-injective _ _ (sym sealed_later ∙ ap (λ f. curve_of f b.curves) same ∙ kept)

  -- The reserve is that of the spot where the perpetual is short and the legs cancel.
  short-IsCovered :
      IsExact D
      → (l : Ledger D) (mark : D) → IsHedged l
      → (l.perp.quantity ≺ nought) ≡ true
      → reserve_short env.config l mark ≡ false
      → IsCovered env.config l mark
  unfolding reserve_short unrealized
  short-IsCovered exact l mark hedged short enough =
      let size : (if l.perp.quantity ≺ nought then negate l.perp.quantity else l.perp.quantity)
          ≡ l.spot.quantity =
        rw short (sym (spot-eq-negate exact l hedged)) in
      subst
        (λ q.
          (l.cash_usdt ⊕ (l.perp.quantity ⊗ mark ⊖ l.perp.basis_usdt)
            ≺ q ⊗ mark ⊗ env.config.collateral_fraction)
          ≡ false)
        size enough

  -- In a run from its beginning, after an accepted market event that leaves the perpetual short, the
  -- cash with the unrealized profit of the perpetual covers the collateral fraction of what the
  -- spot that is held is worth at the event's mark, if decimals are exact.
  pub process-IsCovered :
      (r : Runner D F) (event : MarketEvent D F) {first r' : Runner D F}
      {scored : Option (Record D F Summary)}
      → IsExact D
      → begin env ≡ ok first
      → Run env first r
      → process env r (StreamEvent.market event) ≡ ok (r', scored)
      → (r'.ledger.perp.quantity ≺ nought) ≡ true
      → IsCovered env.config r'.ledger event.marks.perp
  process-IsCovered r event {first} {r'} exact begun_at run h short =
      let sound = Run-IsSound env exact begun_at (onward (StreamEvent.market event) run h) in
      short-IsCovered exact r'.ledger event.marks.perp sound.balanced.hedged short
        (not_short (process-IsProcessed env r (StreamEvent.market event) h).2)
    where
      not_short :
          {arrived r' : Runner D F}
          → IsProcessed env arrived r' (StreamEvent.market event)
          → reserve_short env.config r'.ledger event.marks.perp ≡ false
      not_short (marketed m) = m.covered
