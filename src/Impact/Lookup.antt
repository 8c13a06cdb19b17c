-- ===== src/Impact/Lookup.antt =====
-- The identities of the fits of an artifact that `validate` accepts, and `law`.
use text.Mathlib.TextPositions.{eq_refl}
use perpetuals_carry_strateg.Base.{
  ℕ, true, false, some, List, [], ◌∷◌, ◌≡◌, refl, ap, ◌∙◌, inl, inr, or_false, arith,
}
use mathlib.Core.Path.{subst}
use perpetuals_carry_strateg.Base.Lists.{Among}
use perpetuals_carry_strateg.Base.Result.{ok}
use perpetuals_carry_strateg.Number.{Number}
use perpetuals_carry_strateg.Impact.{
  Side, Form, Depth, SizeRegime, Fit, Artifact, Identity, identity_eq, identity_of, has_identity,
  digits_eq, regime_eq, side_eq, form_eq, depth_eq,
}
use perpetuals_carry_strateg.Impact.Validate.{Tally, no_fits, tallied, tally_from, validate}
use perpetuals_carry_strateg.Impact.Loading.{find, law}
use perpetuals_carry_strateg.Impact.Chronology.{tally_from-IsTallied, validate-IsValid}

digits_eq_refl : (ds : List ℕ) → digits_eq ds ds ≡ true
digits_eq_refl [] = refl
digits_eq_refl (d ∷ ds) = let rest = digits_eq_refl ds in ground arith

regime_eq_refl : (r : SizeRegime) → regime_eq r r ≡ true
regime_eq_refl SizeRegime.all_sizes = refl
regime_eq_refl (SizeRegime.training_size_bin ds) = digits_eq_refl ds

side_eq_refl : (s : Side) → side_eq s s ≡ true
side_eq_refl Side.buy = refl
side_eq_refl Side.sell = refl

depth_eq_refl : (d : Depth) → depth_eq d d ≡ true
depth_eq_refl Depth.inside_validated_depth = refl
depth_eq_refl Depth.beyond_validated_depth = refl

form_eq_refl : (f : Form) → form_eq f f ≡ true
form_eq_refl Form.square_root = refl
form_eq_refl Form.linear = refl
form_eq_refl Form.power_diagnostic = refl

pub identity_eq_refl : (i : Identity) → identity_eq i i ≡ true
unfolding identity_eq
identity_eq_refl i =
    rw
      (side_eq_refl i.side, eq_refl i.schedule, depth_eq_refl i.depth, regime_eq_refl i.size_regime)
      (form_eq_refl i.form)

new_identity :
    (i j : Identity) (seen : List Identity)
    → has_identity j seen ≡ false
    → Among i seen
    → identity_eq i j ≡ false
new_identity i j [] h among = elim among [ ]
new_identity i j (k ∷ seen) h (inl same) =
    let (here, _) = or_false (identity_eq k j) _ h in ap (λ x. identity_eq x j) same ∙ here
new_identity i j (k ∷ seen) h (inr among) =
    let (_, rest) = or_false (identity_eq k j) _ h in new_identity i j seen rest among

module _ {F : Type 0} ⦃n : Number F⦄ where
  -- A fit that is still to be tallied has none of the identities so far.
  tally_from-distinct :
      (start cutoff end : ℕ) (t : Tally) (fits : List (Fit F)) {last : Tally} (i : Identity)
      (f : Fit F)
      → tally_from start cutoff end t fits ≡ ok last
      → Among i t.identities
      → Among f fits
      → identity_eq i (identity_of f) ≡ false
  unfolding tallied
  tally_from-distinct start cutoff end t [] i f h seen among = elim among [ ]
  tally_from-distinct start cutoff end t (g ∷ fits) i f h seen (inl same) =
      let step = tally_from-IsTallied start cutoff end t g fits h in
      new_identity i (identity_of f) t.identities
        (ap (λ x. has_identity (identity_of x) t.identities) same ∙ step.fresh) seen
  tally_from-distinct start cutoff end t (g ∷ fits) i f h seen (inr among) =
      let step = tally_from-IsTallied start cutoff end t g fits h in
      tally_from-distinct start cutoff end (tallied t g (identity_of g) step.days) fits i f
        step.rest (inr seen) among

  tally_from-find :
      (start cutoff end : ℕ) (t : Tally) (fits : List (Fit F)) {last : Tally} (f : Fit F)
      → tally_from start cutoff end t fits ≡ ok last
      → Among f fits
      → find (identity_of f) fits ≡ some f
  unfolding find tallied
  tally_from-find start cutoff end t [] f h among = elim among [ ]
  tally_from-find start cutoff end t (g ∷ fits) f h (inl same) =
      subst (λ x. find (identity_of f) (x ∷ fits) ≡ some f) same
        (rw (identity_eq_refl (identity_of f)) refl)
  tally_from-find start cutoff end t (g ∷ fits) f h (inr among) =
      let step = tally_from-IsTallied start cutoff end t g fits h in
      let next : Tally = tallied t g (identity_of g) step.days in
      let other =
        tally_from-distinct start cutoff end next fits (identity_of g) f step.rest (inl refl)
          among in
      rw other (tally_from-find start cutoff end next fits f step.rest among)

  -- In a valid artifact every fit is found by its identity: `law` returns the model of the fit itself.
  pub law-eq-model :
      (a : Artifact F) (f : Fit F)
      → validate a ≡ ok tt
      → Among f a.fits
      → law a (identity_of f) ≡ ok f.model
  unfolding law
  law-eq-model a f valid among =
      let passed = validate-IsValid a valid in
      rw
        (
          valid,
          tally_from-find a.train_start a.train_end_exclusive a.test_end_exclusive no_fits a.fits f
              passed.tallied among,
        )
        refl
