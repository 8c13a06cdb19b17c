-- ===== src/Impact/Fits.antt =====
-- `_days` and `_validate_fit`.
use perpetuals_carry_strateg.Base.{
  ℕ, ◌+◌, ◌-◌, Bool, true, false, not, ◌&&◌, ◌||◌, List, [], ◌∷◌, ◌++◌, ltb, ◌==◌,
}
use perpetuals_carry_strateg.Base.Lists.{length, all, any}
use perpetuals_carry_strateg.Base.Text.{is_blank}
use perpetuals_carry_strateg.Base.Result.{Result, ok, Error, raise_if, ◌>>◌}
use perpetuals_carry_strateg.Number.{Number, ◌⊘◌, ◌≺◌, ◌≼◌, ◌≗◌, nought, one, number_of, is_finite}
use perpetuals_carry_strateg.Impact.{
  Form, Depth, SizeRegime, FittedLaw, Fit, Identity, identity_of, inside, value_of,
}

module _ {A : Type 0} (less : A → A → Bool) where
  abbrev pub precedes : A → List A → Bool
  precedes x [] = true
  precedes x (y ∷ ys) = less x y

  -- `values == sorted(set(values))`
  abbrev pub is_increasing : List A → Bool
  is_increasing [] = true
  is_increasing (x ∷ xs) = precedes x xs && is_increasing xs

abbrev pub is_none : {A : Type 0} → List A → Bool
is_none [] = true
is_none (x ∷ xs) = false

-- `_days`
unfoldable pub check_days : List ℕ → Result (Unit {0})
check_days days = do
  raise_if (is_none days || not (is_increasing ltb days)) Error.impact_model_error
  ok tt

-- `re.fullmatch(r"all_sizes|training_size_bin_\d+", regime)`
abbrev pub is_regime : SizeRegime → Bool
is_regime SizeRegime.all_sizes = true
is_regime (SizeRegime.training_size_bin digits) = not (is_none digits) && all (λ d. ltb d 10) digits

-- Whether the size bin lies outside the edges.
abbrev pub is_outside : {F : Type 0} → SizeRegime → List F → Bool
is_outside SizeRegime.all_sizes edges = false
is_outside (SizeRegime.training_size_bin digits) edges = ltb (length edges) (value_of 0 digits)

-- Two Booleans that differ.
abbrev pub differ : Bool → Bool → Bool
differ true b = not b
differ false b = b

module _ {F : Type 0} where
  abbrev pub unused_rows : Fit F → Form → ℕ
  unused_rows f Form.power_diagnostic = f.zero_training_targets + f.negative_training_targets
  unused_rows f _ = 0

  abbrev pub deep_rows : Fit F → Depth → ℕ
  deep_rows f Depth.beyond_validated_depth = f.train_rows + f.test_rows
  deep_rows f Depth.inside_validated_depth = 0

-- One pass of the loop over the days of training and of testing.
unfoldable pub check_split : ℕ → ℕ → List ℕ → ℕ → Result (Unit {0})
unfolding check_days
check_split low high days rows = do
  check_days days
  raise_if (not (all (inside low high) days)) Error.impact_model_error
  raise_if (ltb rows (length days)) Error.impact_model_error
  ok tt

module _ {F : Type 0} ⦃n : Number F⦄ where
  -- Whether the exponent disagrees with the form.
  abbrev pub exponent_refused : Form → F → Bool
  exponent_refused Form.square_root exponent = not (exponent ≗ one ⊘ number_of 2)
  exponent_refused Form.linear exponent = not (exponent ≗ one)
  exponent_refused Form.power_diagnostic exponent = false

  abbrev pub usable : FittedLaw F → Bool
  usable model = nought ≼ model.coefficient && nought ≺ model.exponent

  abbrev pub size_refused : F → Bool
  size_refused size = not (is_finite size) || size ≼ nought

  -- The tests on the law of a fit.
  unfoldable pub check_law : Fit F → Result (Unit {0})
  check_law f =
      let model = f.model in
      do
        raise_if (is_blank f.schedule || not (is_regime f.size_regime)) Error.impact_model_error
        raise_if (not (is_finite model.coefficient) || not (is_finite model.exponent))
            Error.impact_model_error
        raise_if (exponent_refused model.form model.exponent) Error.impact_model_error
        raise_if (differ f.usable_as_nonnegative_impact_law (usable model)) Error.impact_model_error
        ok tt

  -- The tests on the counts of rows.
  unfoldable pub check_rows : Fit F → Result (Unit {0})
  check_rows f = do
    raise_if (f.train_rows == 0 || f.test_rows == 0) Error.impact_model_error
    raise_if (ltb f.train_rows (f.zero_training_targets + f.negative_training_targets))
        Error.impact_model_error
    raise_if (not (f.fit_rows_used == f.train_rows - unused_rows f f.model.form))
        Error.impact_model_error
    raise_if (not (f.beyond_validated_depth_rows == deep_rows f f.depth)) Error.impact_model_error
    ok tt

  -- The tests on the sizes.
  unfoldable pub check_sizes : Fit F → Result (Unit {0})
  check_sizes f = do
    raise_if
        (any size_refused
          (f.size_bin_edges_adv_fraction ++ f.training_size_min ∷ f.training_size_max ∷ []))
        Error.impact_model_error
    raise_if
        (not (is_increasing (λ x y. x ≺ y) f.size_bin_edges_adv_fraction)
          || f.training_size_max ≺ f.training_size_min)
        Error.impact_model_error
    raise_if (is_outside f.size_regime f.size_bin_edges_adv_fraction) Error.impact_model_error
    ok tt

  -- `_validate_fit`: the identity of the fit, and its days.
  unfoldable pub check_fit : ℕ → ℕ → ℕ → Fit F → Result (Identity × List ℕ)
  unfolding check_law check_rows check_split check_sizes
  check_fit start cutoff end f = do
    check_law f
    check_rows f
    check_split start cutoff f.train_days f.train_rows
    check_split cutoff end f.test_days f.test_rows
    check_sizes f
    ok (identity_of f, f.train_days ++ f.test_days)
