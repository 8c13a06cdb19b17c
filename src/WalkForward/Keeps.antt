-- ===== src/WalkForward/Keeps.antt =====
-- What admitting, trading and deciding leave as it is: the model, the clock and the identifiers; the
-- ledger moves on by events, and a fold keeps its curve.
use mathlib.Core.Path.{subst}
use mathlib.Core.Option.{some-injective}
use text.Mathlib.TextEquality.{eq_iff}
use perpetuals_carry_strateg.Base.{
  ℕ, String, true, false, Option, none, some, List, ◌≡◌, refl, ap, ◌∙◌, inl, inr, arith, Bool-cases,
  ◌==◌, ==→eq, Option-cases,
}
use perpetuals_carry_strateg.Base.Result.{ok, Error, >>=-eq-ok, raise_if-eq-ok, ok_injective}
use perpetuals_carry_strateg.Number.{Number, Conversions}
use perpetuals_carry_strateg.Accounting.State.{Ledger}
use perpetuals_carry_strateg.Accounting.Steps.{History, begun, after}
use perpetuals_carry_strateg.Execution.{Opportunity, MarketEvent}
use perpetuals_carry_strateg.WalkForward.{Config, Runner}
use perpetuals_carry_strateg.WalkForward.Trading.{
  curve_of, with_default, previous_or, opportunity_refused, seal, admit_from, admit,
}

-- A fold that has a curve keeps it.
abbrev pub Extends : List (ℕ × String) → List (ℕ × String) → Type 0
Extends curves curves' =
    (fold : ℕ) (digest : String)
    → curve_of fold curves ≡ some digest
    → curve_of fold curves' ≡ some digest

-- A default for a fold that has no curve leaves the others.
with_default-Extends :
    (fold : ℕ) (digest : String) (curves : List (ℕ × String))
    → Extends curves (with_default fold digest (curve_of fold curves) curves)
with_default-Extends fold digest curves = elim (Option-cases (curve_of fold curves)) [
  | inl fresh ↦ rw fresh (λ fold' digest' h. elim (Bool-cases (fold == fold')) [
    | inl same ↦
        let missing : curve_of fold' curves ≡ none =
          subst (λ k. curve_of k curves ≡ none) (==→eq fold fold' same) fresh in
        cc
    | inr other ↦ rw other h
  ])
  | inr (previous, given) ↦ rw given (λ fold' digest' h. h)
]

-- A fold that had another curve, or none, has the default if the two agree.
with_default-given :
    (fold : ℕ) (digest : String) (curves : List (ℕ × String))
    → previous_or digest (curve_of fold curves) ≡ digest
    → curve_of fold (with_default fold digest (curve_of fold curves) curves) ≡ some digest
with_default-given fold digest curves h = elim (Option-cases (curve_of fold curves)) [
  | inl fresh ↦ let self : (fold == fold) ≡ true = ground arith in rw (fresh, self) refl
  | inr (previous, given) ↦ rw given (given ∙ ap some (rw given at h))
]

pub none-ne-some : {A : Type 0} {a : A} → none ≡ some a → ⊥
none-ne-some h = cc

module _ {D : Type 0} ⦃d : Number D⦄ where
  pub History-trans : {a b c : Ledger D} → History a b → History b c → History a c
  History-trans h begun = h
  History-trans h (after e k accepted) = after e (History-trans h k) accepted

module _ {D F : Type 0} ⦃d : Number D⦄ where
  pub record Keeps (r r' : Runner D F) : Type 0 where
    pub history : History r.ledger r'.ledger
    pub model : r'.model ≡ r.model
    pub last_time : r'.last_time ≡ r.last_time
    pub ids : r'.ids ≡ r.ids
    pub next_observation : r'.next_observation_ms ≡ r.next_observation_ms
    pub next_decision : r'.next_decision_ms ≡ r.next_decision_ms
    pub sealed : Extends r.fold_curves r'.fold_curves

  pub Keeps-refl : (r : Runner D F) → Keeps r r
  Keeps-refl r = record {
    history = begun;
    model = refl;
    last_time = refl;
    ids = refl;
    next_observation = refl;
    next_decision = refl;
    sealed = λ fold digest h. h;
  }

  pub Keeps-trans : {a b c : Runner D F} → Keeps a b → Keeps b c → Keeps a c
  Keeps-trans k l = record {
    history = History-trans k.history l.history;
    model = l.model ∙ k.model;
    last_time = l.last_time ∙ k.last_time;
    ids = l.ids ∙ k.ids;
    next_observation = l.next_observation ∙ k.next_observation;
    next_decision = l.next_decision ∙ k.next_decision;
    sealed = λ fold digest h. l.sealed fold digest (k.sealed fold digest h);
  }

module _ {D F : Type 0} ⦃d : Number D⦄ ⦃n : Number F⦄ ⦃v : Conversions D F⦄ where
  -- What `admit` leaves, given an opportunity: the runner but for its dictionary, and of an
  -- opportunity that it admits, the curve of its fold.
  pub record IsAdmitted (config : Config D F) (r : Runner D F) (event : MarketEvent D F)
      (given : Option (Opportunity D F)) (r' : Runner D F) (o : Option (Opportunity D F))
      : Type 0 where
    pub curves : List (ℕ × String)
    pub same : record r { fold_curves = curves } ≡ r'
    pub extends : Extends r.fold_curves curves
    pub accepted :
        (x : Opportunity D F)
        → o ≡ some x
        → (given ≡ some x)
          × (opportunity_refused config event x ≡ false)
          × (curve_of x.fold_start_ms curves ≡ some x.curve.artifact_sha256)

  seal-eq-ok :
      (r : Runner D F) (o : Opportunity D F) {r' : Runner D F}
      → seal r o ≡ ok r'
      → let digest = o.curve.artifact_sha256 in
        let previous = curve_of o.fold_start_ms r.fold_curves in
        (previous_or digest previous ≡ digest)
        × (record r { fold_curves = with_default o.fold_start_ms digest previous r.fold_curves }
            ≡ r')
  unfolding seal
  seal-eq-ok r o h =
      let (kept, done) = raise_if-eq-ok _ Error.value_error _ h in
      ((eq_iff _ _).0 (ground arith), ok_injective done)

  admit_from-IsAdmitted :
      (config : Config D F) (r : Runner D F) (event : MarketEvent D F)
      (given : Option (Opportunity D F)) {r' : Runner D F} {o : Option (Opportunity D F)}
      → admit_from config r event given ≡ ok (r', o)
      → IsAdmitted config r event given r' o
  unfolding admit_from
  admit_from-IsAdmitted config r event none {r'} {o} h =
      let same : (r, none) ≡ (r', o) = ok_injective h in
      record {
        curves = r.fold_curves;
        same = ap (λ p. p.0) same;
        extends = λ fold digest k. k;
        accepted = λ x k. elim (none-ne-some (ap (λ p. p.1) same ∙ k)) [ ];
      }
  admit_from-IsAdmitted config r event (some g) {r'} {o} h =
      elim (Bool-cases (opportunity_refused config event g)) [
        | inl refused ↦
            let same : (r, none) ≡ (r', o) = ok_injective (rw refused at h) in
            record {
              curves = r.fold_curves;
              same = ap (λ p. p.0) same;
              extends = λ fold digest k. k;
              accepted = λ x k. elim (none-ne-some (ap (λ p. p.1) same ∙ k)) [ ];
            }
        | inr fits ↦
            let (sealed_by, is_sealed, done) = >>=-eq-ok (seal r g) _ (rw fits at h) in
            let same : (sealed_by, some g) ≡ (r', o) = ok_injective done in
            let (agrees, made) = seal-eq-ok r g is_sealed in
            let digest = g.curve.artifact_sha256 in
            record {
              curves =
                  with_default g.fold_start_ms digest (curve_of g.fold_start_ms r.fold_curves)
                    r.fold_curves;
              same = made ∙ ap (λ p. p.0) same;
              extends = with_default-Extends g.fold_start_ms digest r.fold_curves;
              accepted = λ x k.
                  let e : g ≡ x = some-injective _ _ (ap (λ p. p.1) same ∙ k) in
                  subst
                    (λ y.
                      (some g ≡ some y)
                      × (opportunity_refused config event y ≡ false)
                      × (curve_of y.fold_start_ms (
                            with_default g.fold_start_ms digest
                              (curve_of g.fold_start_ms r.fold_curves) r.fold_curves)
                          ≡ some y.curve.artifact_sha256))
                    e (refl, fits, with_default-given g.fold_start_ms digest r.fold_curves agrees);
            }
      ]

  pub admit-IsAdmitted :
      (config : Config D F) (r : Runner D F) (event : MarketEvent D F) {r' : Runner D F}
      {o : Option (Opportunity D F)}
      → admit config r event ≡ ok (r', o)
      → IsAdmitted config r event event.opportunity r' o
  unfolding admit
  admit-IsAdmitted config r event h = admit_from-IsAdmitted config r event event.opportunity h

  pub IsAdmitted-Keeps :
      {config : Config D F} {r : Runner D F} {event : MarketEvent D F}
      {given : Option (Opportunity D F)} {r' : Runner D F} {o : Option (Opportunity D F)}
      → IsAdmitted config r event given r' o
      → Keeps r r'
  IsAdmitted-Keeps {r = r} a = subst (Keeps r) a.same (record {
    history = begun;
    model = refl;
    last_time = refl;
    ids = refl;
    next_observation = refl;
    next_decision = refl;
    sealed = a.extends;
  })
