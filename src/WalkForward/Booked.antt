-- ===== src/WalkForward/Booked.antt =====
-- What a trade books: two fills, of the quantity and against it.
use mathlib.Core.Path.{subst}
use perpetuals_carry_strateg.Base.{
  Bool, true, false, ◌&&◌, Option, none, some, List, [], ◌∷◌, ◌≡◌, refl, sym, ◌∙◌, ◌⊎◌, inl, inr,
  Bool-cases, or_false, and_true,
}
use perpetuals_carry_strateg.Base.Result.{ok, Error, >>=-eq-ok, raise_if-eq-ok, ok_injective}
use perpetuals_carry_strateg.Number.{Number, Conversions}
use perpetuals_carry_strateg.Fees.{Market}
use perpetuals_carry_strateg.Accounting.State.{Fill, Ledger}
use perpetuals_carry_strateg.Accounting.Fills.{fill}
use perpetuals_carry_strateg.Accounting.Steps.{Event, apply, History, begun, after}
use perpetuals_carry_strateg.Execution.{Opportunity, MarketEvent}
use perpetuals_carry_strateg.WalkForward.{ExecutionMode, mode_eq, Config, Environment, Runner}
use perpetuals_carry_strateg.WalkForward.Trading.{
  reserve_short, admit, require, admit_for_trade, unexpected, spot_amount, perp_amount, proposed,
  trade,
}
use perpetuals_carry_strateg.WalkForward.Keeps.{
  Keeps, Keeps-refl, admit-IsAdmitted, IsAdmitted-Keeps,
}

module _ {D F : Type 0} ⦃d : Number D⦄ ⦃n : Number F⦄ ⦃v : Conversions D F⦄ where
  -- Two expected fills lead from one ledger to the other.
  pub record IsBooked (config : Config D F) (event : MarketEvent D F) (quantity : D)
      (opening : Bool) (l l' : Ledger D) : Type 0 where
    pub spot_fill : Fill D
    pub perp_fill : Fill D
    pub between : Ledger D
    pub spot_booked : fill l spot_fill ≡ ok between
    pub perp_booked : fill between perp_fill ≡ ok l'
    pub spot_expected :
        unexpected config event Market.spot (spot_amount quantity opening) spot_fill ≡ false
    pub perp_expected :
        unexpected config event Market.perp (perp_amount quantity opening) perp_fill ≡ false

  pub IsBooked-History :
      {config : Config D F} {event : MarketEvent D F} {quantity : D} {opening : Bool}
      {l l' : Ledger D}
      → IsBooked config event quantity opening l l'
      → History l l'
  unfolding apply
  IsBooked-History b =
      after (Event.trade_filled b.perp_fill)
        (after (Event.trade_filled b.spot_fill) begun b.spot_booked) b.perp_booked

module _ {D F : Type 0} ⦃d : Number D⦄ ⦃n : Number F⦄ ⦃v : Conversions D F⦄ where
  proposed-IsBooked :
      (config : Config D F) (l : Ledger D) (event : MarketEvent D F) (quantity : D) (opening : Bool)
      (fills : List (Fill D)) {l' : Ledger D}
      → proposed config l event quantity opening fills ≡ ok l'
      → IsBooked config event quantity opening l l'
  unfolding proposed
  proposed-IsBooked config l event quantity opening [] h = cc
  proposed-IsBooked config l event quantity opening (s ∷ []) h = cc
  proposed-IsBooked config l event quantity opening (s ∷ p ∷ []) h =
      let (expected, h₁) = raise_if-eq-ok _ Error.execution_unavailable _ h in
      let (as_spot, as_perp) = or_false _ _ expected in
      let (between, first, second) = >>=-eq-ok (fill l s) _ h₁ in
      record {
        spot_fill = s;
        perp_fill = p;
        between = between;
        spot_booked = first;
        perp_booked = second;
        spot_expected = as_spot;
        perp_expected = as_perp;
      }
  proposed-IsBooked config l event quantity opening (s ∷ p ∷ q ∷ rest) h = cc

  require-Keeps :
      (r r' : Runner D F) (o : Option (Opportunity D F)) {r'' : Runner D F}
      → Keeps r r'
      → require (r', o) ≡ ok r''
      → (r' ≡ r'')
  require-Keeps r r' none k h = cc
  require-Keeps r r' (some o) k h = ok_injective h

  -- What `trade` needs of the opportunity changes the dictionary only.
  admit_for_trade-Keeps :
      (config : Config D F) (r : Runner D F) (event : MarketEvent D F) {r' : Runner D F}
      → admit_for_trade config r event ≡ ok r'
      → Keeps r r' × (r'.position ≡ r.position) × (r'.ledger ≡ r.ledger)
  unfolding admit_for_trade
  admit_for_trade-Keeps config r event h =
      elim (Bool-cases (mode_eq config.execution_mode ExecutionMode.inferred)) [
        | inl inferred ↦
            let ((r₁, o), admitted, done) = >>=-eq-ok (admit config r event) _ (rw inferred at h) in
            let a = admit-IsAdmitted config r event admitted in
            let same = require-Keeps r r₁ o (IsAdmitted-Keeps a) done in
            subst (λ x. Keeps r x × (x.position ≡ r.position) × (x.ledger ≡ r.ledger))
              (a.same ∙ same) (subst (Keeps r) (sym a.same) (IsAdmitted-Keeps a), refl, refl)
        | inr other ↦
            subst (λ x. Keeps r x × (x.position ≡ r.position) × (x.ledger ≡ r.ledger))
              (ok_injective (rw other at h)) (Keeps-refl r, refl, refl)
      ]

module _ {D F Summary : Type 0} ⦃d : Number D⦄ ⦃n : Number F⦄ ⦃v : Conversions D F⦄ where
  -- A trade keeps the position; the ledger is as before, or has the pair of fills booked.
  pub record IsTraded (env : Environment D F Summary) (r : Runner D F) (event : MarketEvent D F)
      (quantity : D) (opening : Bool) (r' : Runner D F) (done : Bool) : Type 0 where
    pub keeps : Keeps r r'
    pub position : r'.position ≡ r.position
    pub outcome :
        ((done ≡ false) × (opening ≡ true) × (r'.ledger ≡ r.ledger))
        ⊎ ((done ≡ true)
            × IsBooked env.config event quantity opening r.ledger r'.ledger
            × ((opening && reserve_short env.config r'.ledger event.marks.perp) ≡ false))

  pub trade-IsTraded :
      (env : Environment D F Summary) (r : Runner D F) (event : MarketEvent D F) (quantity : D)
      (opening : Bool) {r' : Runner D F} {done : Bool}
      → trade env r event quantity opening ≡ ok (r', done)
      → IsTraded env r event quantity opening r' done
  unfolding trade
  trade-IsTraded env r event quantity opening {r'} {done} h =
      let (r₁, admitted, h₁) = >>=-eq-ok (admit_for_trade env.config r event) _ h in
      let (keeps, position, ledger) = admit_for_trade-Keeps env.config r event admitted in
      let (fills, filled, h₂) = >>=-eq-ok (env.executor.fills event quantity opening) _ h₁ in
      let (l, booked, h₃) =
        >>=-eq-ok (proposed env.config r₁.ledger event quantity opening fills) _ h₂ in
      let b = proposed-IsBooked env.config r₁.ledger event quantity opening fills booked in
      let booked_here = subst (λ a. IsBooked env.config event quantity opening a l) ledger b in
      elim (Bool-cases (opening && reserve_short env.config l event.marks.perp)) [
        | inl short ↦
            let same : (r₁, false) ≡ (r', done) = ok_injective (rw short at h₃) in
            subst (λ x. IsTraded env r event quantity opening x.0 x.1) same
              (record {
                keeps = keeps;
                position = position;
                outcome = inl (refl, (and_true opening _ short).0, ledger);
              })
        | inr covered ↦
            let same : (record r₁ { ledger = l }, true) ≡ (r', done) =
              ok_injective (rw covered at h₃) in
            subst (λ x. IsTraded env r event quantity opening x.0 x.1) same
              (record {
                keeps = record {
                  history = IsBooked-History booked_here;
                  model = keeps.model;
                  last_time = keeps.last_time;
                  ids = keeps.ids;
                  next_observation = keeps.next_observation;
                  next_decision = keeps.next_decision;
                  sealed = keeps.sealed;
                };
                position = position;
                outcome = inr (refl, booked_here, covered);
              })
      ]
