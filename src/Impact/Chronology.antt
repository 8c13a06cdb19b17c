-- ===== src/Impact/Chronology.antt =====
-- The days of the fits of an artifact that `validate` accepts, in time.
use perpetuals_carry_strateg.Base.{
  ℕ, ◌≤◌, ◌<◌, Bool, true, false, not, ◌&&◌, ◌||◌, List, [], ◌∷◌, ◌≡◌, refl, ap, ◌∙◌, ltb, leb,
  ◌==◌, ◌++◌, and_true, or_false, ltb→lt, leb→le,
}
use perpetuals_carry_strateg.Base.Lists.{All, all, any}
use perpetuals_carry_strateg.Base.Text.{is_blank}
use perpetuals_carry_strateg.Base.Result.{
  ok, Error, >>-eq-ok, >>=-eq-ok, raise_if-eq-ok, ok_injective,
}
use perpetuals_carry_strateg.Number.{Number}
use perpetuals_carry_strateg.Impact.{Fit, Artifact, Identity, identity_of, inside, has_identity}
use perpetuals_carry_strateg.Impact.Fits.{
  is_none, check_days, check_split, check_law, check_rows, check_sizes, check_fit,
}
use perpetuals_carry_strateg.Impact.Validate.{
  Tally, no_fits, tallied, tally_from, units_refused, check_provenance, days_eq, validate,
}

pub unless_negated : (b : Bool) → not b ≡ false → b ≡ true
unless_negated true h = refl
unless_negated false h = cc

abbrev pub Within : ℕ → ℕ → ℕ → Type 0
Within low high day = (low ≤ day) × (day < high)

inside-Within :
    (low high : ℕ) (days : List ℕ) → all (inside low high) days ≡ true → All (Within low high) days
inside-Within low high [] h = tt
inside-Within low high (day ∷ days) h =
    let (first, rest) = and_true (inside low high day) _ h in
    let (after, before) = and_true (leb low day) (ltb day high) first in
    ((leb→le low day after, ltb→lt day high before), inside-Within low high days rest)

check_split-Within :
    (low high : ℕ) (days : List ℕ) (rows : ℕ)
    → check_split low high days rows ≡ ok tt
    → All (Within low high) days
unfolding check_split
check_split-Within low high days rows h =
    let (_, h₁) = >>-eq-ok (check_days days) _ h in
    let (within, _) =
      raise_if-eq-ok (not (all (inside low high) days)) Error.impact_model_error _ h₁ in
    inside-Within low high days (unless_negated (all (inside low high) days) within)

module _ {F : Type 0} where
  -- A fit is trained on days from a start up to a cutoff, and tested on days from there to an end.
  pub record IsSplit (start cutoff end : ℕ) (f : Fit F) : Type 0 where
    pub train : All (Within start cutoff) f.train_days
    pub test : All (Within cutoff end) f.test_days

module _ {F : Type 0} ⦃n : Number F⦄ where
  pub check_fit-IsSplit :
      (start cutoff end : ℕ) (f : Fit F) {checked : Identity × List ℕ}
      → check_fit start cutoff end f ≡ ok checked
      → IsSplit start cutoff end f
        × ((identity_of f ≡ checked.0) × (f.train_days ++ f.test_days ≡ checked.1))
  unfolding check_fit
  check_fit-IsSplit start cutoff end f h =
      let (_, h₁) = >>-eq-ok (check_law f) _ h in
      let (_, h₂) = >>-eq-ok (check_rows f) _ h₁ in
      let (train, h₃) = >>-eq-ok (check_split start cutoff f.train_days f.train_rows) _ h₂ in
      let (test, h₄) = >>-eq-ok (check_split cutoff end f.test_days f.test_rows) _ h₃ in
      let (_, done) = >>-eq-ok (check_sizes f) _ h₄ in
      (
        record {
          train = check_split-Within start cutoff f.train_days f.train_rows train;
          test = check_split-Within cutoff end f.test_days f.test_rows test;
        },
        (ap (λ c. c.0) (ok_injective done), ap (λ c. c.1) (ok_injective done)),
      )

  -- One step of the loop over the fits.
  pub record IsTallied (start cutoff end : ℕ) (t : Tally) (f : Fit F) (fits : List (Fit F))
      (last : Tally) : Type 0 where
    pub split : IsSplit start cutoff end f
    pub days : List ℕ
    pub days_of : f.train_days ++ f.test_days ≡ days
    pub fresh : has_identity (identity_of f) t.identities ≡ false
    pub rest : tally_from start cutoff end (tallied t f (identity_of f) days) fits ≡ ok last

  pub tally_from-IsTallied :
      (start cutoff end : ℕ) (t : Tally) (f : Fit F) (fits : List (Fit F)) {last : Tally}
      → tally_from start cutoff end t (f ∷ fits) ≡ ok last
      → IsTallied start cutoff end t f fits last
  unfolding tally_from
  tally_from-IsTallied start cutoff end t f fits {last} h =
      let (checked, c, h₁) = >>=-eq-ok (check_fit start cutoff end f) _ h in
      let (split, (same, days_of)) = check_fit-IsSplit start cutoff end f c in
      let (fresh, h₂) =
        raise_if-eq-ok (has_identity checked.0 t.identities) Error.impact_model_error _ h₁ in
      record {
        split = split;
        days = checked.1;
        days_of = days_of;
        fresh = ap (λ i. has_identity i t.identities) same ∙ fresh;
        rest = ap (λ i. tally_from start cutoff end (tallied t f i checked.1) fits) same ∙ h₂;
      }

  tally_from-IsSplit :
      (start cutoff end : ℕ) (t : Tally) (fits : List (Fit F)) {last : Tally}
      → tally_from start cutoff end t fits ≡ ok last
      → All (IsSplit start cutoff end) fits
  tally_from-IsSplit start cutoff end t [] h = tt
  tally_from-IsSplit start cutoff end t (f ∷ fits) h =
      let step = tally_from-IsTallied start cutoff end t f fits h in
      (
        step.split,
        tally_from-IsSplit start cutoff end (tallied t f (identity_of f) step.days) fits step.rest,
      )

  -- What a valid artifact has passed.
  pub record IsValid (a : Artifact F) : Type 0 where
    pub starts : a.train_start < a.train_end_exclusive
    pub ends : a.train_end_exclusive < a.test_end_exclusive
    pub provenance :
        check_provenance a.provenance a.symbol a.train_start a.test_end_exclusive ≡ ok tt
    pub last : Tally
    pub tallied :
        tally_from a.train_start a.train_end_exclusive a.test_end_exclusive no_fits a.fits ≡ ok last
    pub corpus : days_eq last.days a.provenance.corpus_days ≡ true

  pub validate-IsValid : (a : Artifact F) → validate a ≡ ok tt → IsValid a
  unfolding validate
  validate-IsValid a h =
      let (_, h₁) = raise_if-eq-ok (not (a.schema_version == 1)) Error.impact_model_error _ h in
      let (_, h₂) = raise_if-eq-ok (is_blank a.symbol) Error.impact_model_error _ h₁ in
      let (_, h₃) = raise_if-eq-ok (units_refused a) Error.impact_model_error _ h₂ in
      let (order, h₄) =
        raise_if-eq-ok
          (not (
            ltb a.train_start a.train_end_exclusive
            && ltb a.train_end_exclusive a.test_end_exclusive))
          Error.impact_model_error _ h₃ in
      let (provenance, h₅) =
        >>-eq-ok (check_provenance a.provenance a.symbol a.train_start a.test_end_exclusive) _ h₄ in
      let (_, h₆) =
        raise_if-eq-ok (is_none a.caveats || any is_blank a.caveats) Error.impact_model_error _
          h₅ in
      let (_, h₇) = raise_if-eq-ok (is_none a.fits) Error.impact_model_error _ h₆ in
      let (last, t, h₈) =
        >>=-eq-ok
          (tally_from a.train_start a.train_end_exclusive a.test_end_exclusive no_fits a.fits) _
          h₇ in
      let (agreed, _) =
        raise_if-eq-ok
          (not last.has_primary
            || (not (days_eq last.days a.provenance.corpus_days)
                || (not (last.train_rows == a.provenance.supporting_train_rows)
                    || not (last.test_rows == a.provenance.supporting_test_rows))))
          Error.impact_model_error _ h₈ in
      let (_, agreed₁) = or_false (not last.has_primary) _ agreed in
      let (same_days, _) = or_false (not (days_eq last.days a.provenance.corpus_days)) _ agreed₁ in
      let (p, q) = and_true (ltb a.train_start a.train_end_exclusive) _ (unless_negated _ order) in
      record {
        starts = ltb→lt _ _ p;
        ends = ltb→lt _ _ q;
        provenance = provenance;
        last = last;
        tallied = t;
        corpus = unless_negated _ same_days;
      }

  -- A valid artifact splits its window in time: every fit is trained on days from its start up to its
  -- cutoff, and tested on days from the cutoff up to its end.
  pub validate-IsSplit :
      (a : Artifact F)
      → validate a ≡ ok tt
      → All (IsSplit a.train_start a.train_end_exclusive a.test_end_exclusive) a.fits
  validate-IsSplit a h =
      tally_from-IsSplit a.train_start a.train_end_exclusive a.test_end_exclusive no_fits a.fits
        (validate-IsValid a h).tallied
