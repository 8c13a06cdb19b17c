-- ===== src/Impact/Examples.antt =====
-- An artifact of two fits over the first days of 1970, and the curve that is loaded from it.
use perpetuals_carry_strateg.Base.{
  ℕ, ◌+◌, ◌-◌, ◌*◌, ◌/◌, true, false, some, [], ◌∷◌, ◌≡◌, refl, inl, inr, ltb, leb, ◌==◌,
}
use perpetuals_carry_strateg.Base.Lists.{All}
use perpetuals_carry_strateg.Base.Text.{sample_digest, is_blank}
use perpetuals_carry_strateg.Base.Result.{ok, err, Error}
use perpetuals_carry_strateg.Number.{Number}
use perpetuals_carry_strateg.Checks.{number}
use perpetuals_carry_strateg.Carry.Types.{CostKind, check_estimate}
use perpetuals_carry_strateg.Costs.{ImpactCurve}
use perpetuals_carry_strateg.Carry.Types.{CostEstimate}
use perpetuals_carry_strateg.Carry.Decide.{CarryStrategy}
use perpetuals_carry_strateg.Costs.{ExecutionCharges, estimate_of}
use perpetuals_carry_strateg.Impact.Loading.{from_artifact}
use perpetuals_carry_strateg.Impact.Corpus.{HasEvidence, validate-HasEvidence}
use perpetuals_carry_strateg.Impact.Estimate.{IsFounded, from_artifact-IsFounded}
use perpetuals_carry_strateg.Impact.{
  Side, Form, Depth, SizeRegime, Fit, Evidence, Artifact, identity_of, identity_eq,
}
use perpetuals_carry_strateg.Impact.Validate.{row_count_scope_text, validate}
use perpetuals_carry_strateg.Impact.Loading.{Reading, Stratum, load_curve, law}
use perpetuals_carry_strateg.Impact.Chronology.{IsSplit, validate-IsSplit}
use perpetuals_carry_strateg.Impact.Lookup.{law-eq-model}
use perpetuals_carry_strateg.Impact.Loaded.{IsLoaded, load_curve-IsLoaded}

-- Numbers counted in halves.
instance abbrev halves_number : Number ℕ
halves_number = record {
  nought = 0;
  one = 2;
  of_ℕ = λ k. 2 * k;
  add = λ a b. a + b;
  sub = λ a b. a - b;
  mul = λ a b. a * b / 2;
  div = λ a b. 2 * a / b;
  neg = λ a. 0;
  sqrt = λ a. a;
  lt = ltb;
  le = leb;
  eq = λ a b. a == b;
  is_finite = λ a. true;
}

abbrev fit_on : Side → ℕ → ℕ → Fit ℕ
fit_on side size_min size_max = record {
  side = side;
  schedule = "single";
  depth = Depth.inside_validated_depth;
  size_regime = SizeRegime.all_sizes;
  size_bin_edges_adv_fraction = 4 ∷ 8 ∷ [];
  model = record { form = Form.square_root; coefficient = 6; exponent = 1 };
  train_rows = 5;
  test_rows = 2;
  train_days = 1 ∷ 2 ∷ [];
  test_days = 11 ∷ [];
  training_size_min = size_min;
  training_size_max = size_max;
  usable_as_nonnegative_impact_law = true;
  zero_training_targets = 1;
  negative_training_targets = 0;
  fit_rows_used = 5;
  beyond_validated_depth_rows = 0;
}

abbrev evidence_on : ℕ → Evidence
evidence_on day = record { symbol = "BTCUSDT"; date = day; manifest_sha256 = sample_digest }

abbrev artifact : Artifact ℕ
artifact = record {
  schema_version = 1;
  symbol = "BTCUSDT";
  primary_form = "square_root";
  target = "slippage_vs_touch_bps";
  size_unit = "ADV fraction";
  output_unit = "bps";
  train_start = 0;
  train_end_exclusive = 10;
  test_end_exclusive = 20;
  provenance = record {
    kind = CostKind.verified_calibration;
    fit_date = 25;
    code_version = "1";
    fitting_source_sha256 = sample_digest;
    inputs = evidence_on 1 ∷ evidence_on 2 ∷ evidence_on 11 ∷ [];
    corpus_days = 1 ∷ 2 ∷ 11 ∷ [];
    supporting_train_rows = 10;
    supporting_test_rows = 4;
    row_count_scope = row_count_scope_text;
  };
  caveats = "none" ∷ [];
  fits = fit_on Side.sell 3 40 ∷ fit_on Side.buy 4 30 ∷ [];
}

artifact_valid : validate artifact ≡ ok tt
unfolding validate is_blank identity_eq
artifact_valid = refl

-- An artifact that was tested on a day before the cutoff is refused.
leaking_refused :
    validate (record artifact {
      fits = record (fit_on Side.sell 3 40) { test_days = 9 ∷ [] } ∷ fit_on Side.buy 4 30 ∷ [];
    })
    ≡ err Error.impact_model_error
unfolding validate is_blank identity_eq
leaking_refused = refl

validate-IsSplit_example : All (IsSplit 0 10 20) artifact.fits
validate-IsSplit_example = validate-IsSplit artifact artifact_valid

law-eq-model_example :
    law artifact (identity_of (fit_on Side.buy 4 30)) ≡ ok (fit_on Side.buy 4 30).model
law-eq-model_example = law-eq-model artifact (fit_on Side.buy 4 30) artifact_valid (inr (inl refl))

abbrev reading : Reading ℕ
reading = record { before = sample_digest; decoded = some artifact; after = sample_digest }

abbrev stratum : Stratum
stratum = record {
  schedule = "single";
  depth = Depth.inside_validated_depth;
  size_regime = SizeRegime.all_sizes;
}

-- The curve is loaded at the start of the day on which its evidence ends.
abbrev curve : ImpactCurve ℕ
curve = record {
  symbol = "BTCUSDT";
  admitted_at_ms = 1_728_000_000;
  evidence_end_exclusive_ms = 1_728_000_000;
  artifact_sha256 = sample_digest;
  kind = CostKind.verified_calibration;
  sell_coefficient_bps = 6;
  buy_coefficient_bps = 6;
  size_min = 4;
  size_max = 30;
}

loaded : load_curve reading "BTCUSDT" 1_728_000_000 stratum false ≡ ok curve
unfolding load_curve is_blank number check_estimate
loaded = refl

too_early : load_curve reading "BTCUSDT" 1_727_999_999 stratum false ≡ err Error.impact_model_error
unfolding load_curve is_blank
too_early = refl

load_curve-IsLoaded_example : IsLoaded reading "BTCUSDT" 1_728_000_000 stratum false curve
load_curve-IsLoaded_example =
    load_curve-IsLoaded reading "BTCUSDT" 1_728_000_000 stratum false loaded

abbrev strategy : CarryStrategy ℕ
strategy = record {
  symbol = "BTCUSDT";
  policy = record {
    horizon_settlements = 3;
    entry_probability = 1;
    continuation_probability = 0;
    allow_synthetic_costs = false;
  };
}

abbrev charges : ExecutionCharges ℕ
charges = record {
  entry_half_spread_bps = 2;
  close_half_spread_bps = 2;
  entry_fee_bps = 8;
  close_fee_bps = 8;
  hedge_entry_bps = 4;
  hedge_close_bps = 4;
  financing_fraction = 0;
}

abbrev now : ℕ
now = 1_728_000_000

abbrev estimate : CostEstimate ℕ
unfolding estimate_of
estimate = estimate_of curve now 1_728_100_000 2_000 10 3 charges

estimated :
    from_artifact reading "BTCUSDT" now 1_728_100_000 2_000 10 3 stratum charges false ≡ ok estimate
unfolding from_artifact is_blank identity_eq number check_estimate estimate estimate_of
estimated = refl

from_artifact-IsFounded_example : IsFounded strategy reading now 3 10 stratum estimate
from_artifact-IsFounded_example =
    from_artifact-IsFounded strategy reading now 1_728_100_000 2_000 10 3 stratum charges estimated

validate-HasEvidence_example : HasEvidence "BTCUSDT" artifact.provenance.inputs 11
validate-HasEvidence_example =
    validate-HasEvidence artifact (fit_on Side.buy 4 30) 11 artifact_valid refl (inr (inl refl))
      (inr (inr (inl refl)))
