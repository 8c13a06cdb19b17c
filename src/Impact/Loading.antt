-- ===== src/Impact/Loading.antt =====
-- `load` and `law` of impact_model_io.py, and `load_curve` and `from_artifact` of
-- python/perpcarry/strategy/costs.py.
use perpetuals_carry_strateg.Base.{
  ℕ, ◌*◌, String, Bool, not, ◌&&◌, ◌||◌, Option, none, some, List, [], ◌∷◌, ltb, if◌then◌else◌,
}
use perpetuals_carry_strateg.Base.Text.{str_eq}
use perpetuals_carry_strateg.Base.Result.{Result, ok, err, Error, raise_if, ◌>>◌, ◌>>=◌}
use perpetuals_carry_strateg.Number.{Number, ◌≺◌, ◌≗◌, nought, maximum, minimum}
use perpetuals_carry_strateg.Checks.{integer, number}
use perpetuals_carry_strateg.Carry.Types.{CostEstimate, is_synthetic}
use perpetuals_carry_strateg.Costs.{
  ImpactCurve, ExecutionCharges, check_curve, check_charges, from_curve,
}
use perpetuals_carry_strateg.Rolling.History.{day_ms}
use perpetuals_carry_strateg.Impact.{
  Side, Form, Depth, SizeRegime, FittedLaw, Fit, Artifact, Identity, identity_eq, identity_of,
  depth_eq,
}
use perpetuals_carry_strateg.Impact.Validate.{validate}

-- A file as it is read: its digest before, the artifact of its text, if that decodes, and its
-- digest after.
pub record Reading (F : Type 0) : Type 0 where
  pub before : String
  pub decoded : Option (Artifact F)
  pub after : String

-- The stratum that a curve is loaded for.
pub record Stratum : Type 0 where
  pub schedule : String
  pub depth : Depth
  pub size_regime : SizeRegime

abbrev pub identity_on : Stratum → Side → Identity
identity_on stratum side = record {
  side = side;
  schedule = stratum.schedule;
  depth = stratum.depth;
  size_regime = stratum.size_regime;
  form = Form.square_root;
}

module _ {F : Type 0} where
  -- The first fit with an identity.
  unfoldable pub find : Identity → List (Fit F) → Option (Fit F)
  unfolding identity_eq
  find identity [] = none
  find identity (f ∷ fits) =
      let rest = find identity fits in if identity_eq (identity_of f) identity then some f else rest

  -- `next(...)`
  abbrev pub found_or : Error → Option (Fit F) → Result (Fit F)
  found_or raised none = err raised
  found_or raised (some f) = ok f

module _ {F : Type 0} ⦃n : Number F⦄ where
  -- `law`
  unfoldable pub law : Artifact F → Identity → Result (FittedLaw F)
  unfolding validate find
  law a identity = do
    validate a
    f ← found_or Error.impact_model_error (find identity a.fits)
    ok f.model

  abbrev pub validated : Option (Artifact F) → Result (Artifact F)
  validated none = err Error.impact_model_error
  validated (some a) = validate a >>= λ _. ok a

  -- `load`
  unfoldable pub load : Reading F → Result (Artifact F)
  unfolding validate
  load reading = validated reading.decoded

  -- One pass of the loop over the sides: the coefficient, and the sizes of training.
  unfoldable pub side_of : Artifact F → Identity → Result (F × (F × F))
  unfolding law
  side_of a identity = do
    found ← law a identity
    f ← found_or Error.stop_iteration (find identity a.fits)
    raise_if (not f.usable_as_nonnegative_impact_law || found.coefficient ≺ nought)
        Error.impact_model_error
    ok (found.coefficient, (f.training_size_min, f.training_size_max))

  -- The curve of the two sides.
  abbrev pub curve_from :
      Artifact F → String → ℕ → String → F × (F × F) → F × (F × F) → ImpactCurve F
  curve_from a digest now_ms symbol (sell, (sell_min, sell_max)) (buy, (buy_min, buy_max)) =
      record {
        symbol = symbol;
        admitted_at_ms = now_ms;
        evidence_end_exclusive_ms = a.test_end_exclusive * day_ms;
        artifact_sha256 = digest;
        kind = a.provenance.kind;
        sell_coefficient_bps = sell;
        buy_coefficient_bps = buy;
        size_min = maximum sell_min buy_min;
        size_max = minimum sell_max buy_max;
      }

  -- `load_curve`
  unfoldable pub load_curve : Reading F → String → ℕ → Stratum → Bool → Result (ImpactCurve F)
  unfolding integer load side_of check_curve
  load_curve reading symbol now_ms stratum allow_synthetic = do
    integer now_ms 0
    raise_if (not (depth_eq stratum.depth Depth.inside_validated_depth)) Error.impact_model_error
    a ← load reading
    raise_if (not (str_eq reading.after reading.before)) Error.impact_model_error
    raise_if (not (str_eq a.symbol symbol) || ltb now_ms (a.test_end_exclusive * day_ms))
        Error.impact_model_error
    raise_if (is_synthetic a.provenance.kind && not allow_synthetic) Error.impact_model_error
    sell ← side_of a (identity_on stratum Side.sell)
    buy ← side_of a (identity_on stratum Side.buy)
    let curve = curve_from a reading.before now_ms symbol sell buy
    raise_if (curve.size_max ≺ curve.size_min) Error.impact_model_error
    check_curve curve

  -- `from_artifact`
  unfoldable pub from_artifact :
      Reading F
      → String
      → ℕ
      → ℕ
      → F
      → F
      → ℕ
      → Stratum
      → ExecutionCharges F
      → Bool
      → Result (CostEstimate F)
  unfolding integer check_charges load_curve from_curve
  from_artifact reading symbol now_ms valid_until_ms notional_usdt adv_fraction horizon stratum
        charges allow_synthetic =
      do
        integer now_ms 0
        number adv_fraction
        check_charges charges
        raise_if (adv_fraction ≗ nought) Error.value_error
        curve ← load_curve reading symbol now_ms stratum allow_synthetic
        from_curve curve now_ms valid_until_ms notional_usdt adv_fraction horizon charges
