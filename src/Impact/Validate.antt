-- ===== src/Impact/Validate.antt =====
-- `_validate_provenance` and `_validate`.
use perpetuals_carry_strateg.Base.{
  ℕ, ◌+◌, String, Bool, true, false, not, ◌&&◌, ◌||◌, List, [], ◌∷◌, ltb, ◌==◌, if◌then◌else◌,
}
use perpetuals_carry_strateg.Base.Lists.{all, any}
use perpetuals_carry_strateg.Base.Text.{str_eq, is_blank, is_digest}
use perpetuals_carry_strateg.Base.Result.{Result, ok, Error, raise_if, ◌>>◌, ◌>>=◌}
use perpetuals_carry_strateg.Number.{Number}
use perpetuals_carry_strateg.Carry.Types.{is_synthetic}
use perpetuals_carry_strateg.Impact.{
  Form, SizeRegime, Fit, Evidence, Provenance, Artifact, Identity, has_day, has_identity, inside,
  form_eq, regime_eq,
}
use perpetuals_carry_strateg.Impact.Fits.{is_none, check_days, check_fit}

abbrev pub row_count_scope_text : String
row_count_scope_text = "unique rows supporting all_sizes square_root fits; bins/forms overlap"

-- The loop over the inputs: the days that it has seen.
unfoldable pub input_days : String → ℕ → ℕ → List ℕ → List Evidence → Result (List ℕ)
unfolding is_digest
input_days symbol start end seen [] = ok seen
input_days symbol start end seen (item ∷ items) = do
  raise_if (not (str_eq item.symbol symbol)) Error.impact_model_error
  raise_if (not (inside start end item.date) || has_day item.date seen) Error.impact_model_error
  raise_if (not (is_digest item.manifest_sha256)) Error.impact_model_error
  input_days symbol start end (item.date ∷ seen) items

-- `_validate_provenance`
unfoldable pub check_provenance : Provenance → String → ℕ → ℕ → Result (Unit {0})
unfolding check_days input_days
check_provenance p symbol start end = do
  raise_if (is_blank p.code_version) Error.impact_model_error
  raise_if (not (is_digest p.fitting_source_sha256)) Error.impact_model_error
  raise_if (not (str_eq p.row_count_scope row_count_scope_text)) Error.impact_model_error
  check_days p.corpus_days
  raise_if (not (all (inside start end) p.corpus_days)) Error.impact_model_error
  seen ← input_days symbol start end [] p.inputs
  raise_if (not (is_synthetic p.kind) && not (all (λ day. has_day day seen) p.corpus_days))
      Error.impact_model_error
  ok tt

-- What the loop over the fits collects; the days are a set, in order.
pub record Tally : Type 0 where
  pub identities : List Identity
  pub days : List ℕ
  pub train_rows : ℕ
  pub test_rows : ℕ
  pub has_primary : Bool

abbrev pub no_fits : Tally
no_fits = record { identities = []; days = []; train_rows = 0; test_rows = 0; has_primary = false }

unfoldable pub with_day : ℕ → List ℕ → List ℕ
with_day day [] = day ∷ []
with_day day (d ∷ ds) =
    let rest = with_day day ds in
    if ltb day d then day ∷ d ∷ ds else if day == d then d ∷ ds else d ∷ rest

-- `days.update(fit_days)`
unfoldable pub with_days : List ℕ → List ℕ → List ℕ
unfolding with_day
with_days [] days = days
with_days (new ∷ news) days = with_days news (with_day new days)

abbrev pub days_eq : List ℕ → List ℕ → Bool
days_eq [] [] = true
days_eq (x ∷ xs) (y ∷ ys) = x == y && days_eq xs ys
days_eq _ _ = false

module _ {F : Type 0} where
  abbrev pub is_primary : Fit F → Bool
  is_primary f =
      regime_eq f.size_regime SizeRegime.all_sizes && form_eq f.model.form Form.square_root

  -- The tally after a fit.
  unfoldable pub tallied : Tally → Fit F → Identity → List ℕ → Tally
  unfolding with_days
  tallied t f identity days = record {
    identities = identity ∷ t.identities;
    days = with_days days t.days;
    train_rows = if is_primary f then t.train_rows + f.train_rows else t.train_rows;
    test_rows = if is_primary f then t.test_rows + f.test_rows else t.test_rows;
    has_primary = is_primary f || t.has_primary;
  }

module _ {F : Type 0} ⦃n : Number F⦄ where
  -- The loop over the fits.
  unfoldable pub tally_from : ℕ → ℕ → ℕ → Tally → List (Fit F) → Result Tally
  unfolding check_fit tallied
  tally_from start cutoff end t [] = ok t
  tally_from start cutoff end t (f ∷ fits) = do
    checked ← check_fit start cutoff end f
    raise_if (has_identity checked.0 t.identities) Error.impact_model_error
    tally_from start cutoff end (tallied t f checked.0 checked.1) fits

  abbrev pub units_refused : Artifact F → Bool
  units_refused a = not (
      str_eq a.primary_form "square_root"
      && (str_eq a.target "slippage_vs_touch_bps"
          && (str_eq a.size_unit "ADV fraction" && str_eq a.output_unit "bps")))

  -- `_validate`, and `validate`, whose errors are all of one class
  unfoldable pub validate : Artifact F → Result (Unit {0})
  unfolding check_provenance tally_from
  validate a = do
    raise_if (not (a.schema_version == 1)) Error.impact_model_error
    raise_if (is_blank a.symbol) Error.impact_model_error
    raise_if (units_refused a) Error.impact_model_error
    raise_if
        (not (
          ltb a.train_start a.train_end_exclusive
          && ltb a.train_end_exclusive a.test_end_exclusive))
        Error.impact_model_error
    check_provenance a.provenance a.symbol a.train_start a.test_end_exclusive
    raise_if (is_none a.caveats || any is_blank a.caveats) Error.impact_model_error
    raise_if (is_none a.fits) Error.impact_model_error
    t ← tally_from a.train_start a.train_end_exclusive a.test_end_exclusive no_fits a.fits
    raise_if
        (not t.has_primary
          || (not (days_eq t.days a.provenance.corpus_days)
              || (not (t.train_rows == a.provenance.supporting_train_rows)
                  || not (t.test_rows == a.provenance.supporting_test_rows))))
        Error.impact_model_error
    ok tt
