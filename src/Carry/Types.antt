-- ===== src/Carry/Types.antt =====
-- The records of python/perpcarry/strategy/carry.py, with the checks of their `__post_init__`.
use perpetuals_carry_strateg.Base.{
  ℕ, ◌+◌, String, Bool, true, false, not, ◌&&◌, ◌||◌, List, [], ◌∷◌, ltb, ◌==◌,
}
use perpetuals_carry_strateg.Base.Lists.{any}
use perpetuals_carry_strateg.Base.Text.{is_empty, is_digest}
use perpetuals_carry_strateg.Base.Result.{Result, ok, Error, raise_if, ◌>>◌}
use perpetuals_carry_strateg.Number.{Number, ◌≺◌, ◌≼◌, ◌≗◌, nought, one}
use perpetuals_carry_strateg.Checks.{integer, number}

-- NumPy's means: of an array of floats, and of an array of booleans.
pub record Numpy (F : Type 0) : Type 0 where
  pub mean : List F → F
  pub share : List Bool → F

pub record Policy (F : Type 0) : Type 0 where
  pub horizon_settlements : ℕ
  pub entry_probability : F
  pub continuation_probability : F
  pub allow_synthetic_costs : Bool

pub record Position (F : Type 0) : Type 0 where
  pub symbol : String
  pub notional_usdt : F
  pub opened_at_ms : ℕ
  pub planned_settlements : ℕ
  pub settlements_held : ℕ
  pub interval_hours : ℕ

pub record FundingApproval : Type 0 where
  pub symbol : String
  pub horizons : List ℕ
  pub interval_hours : ℕ
  pub validation_end_exclusive_ms : ℕ
  pub valid_until_ms : ℕ
  pub evidence_sha256 : String
  pub approved : Bool
  pub model_sha256 : String

-- Of python/perpcarry/models/rolling_funding.py.
pub record CumulativeFundingForecast (F : Type 0) : Type 0 where
  pub samples : List F
  pub horizon_settlements : ℕ
  pub interval_hours : ℕ
  pub as_of : ℕ
  pub last_observation_time : ℕ
  pub training_first_time : ℕ
  pub training_settlements : ℕ
  pub seed : ℕ

pub record FundingForecast (F : Type 0) : Type 0 where
  pub symbol : String
  pub prediction : CumulativeFundingForecast F
  pub model_sha256 : String

pub data CostKind : Type 0 where
  verified_calibration synthetic : CostKind

abbrev pub is_synthetic : CostKind → Bool
is_synthetic CostKind.synthetic = true
is_synthetic CostKind.verified_calibration = false

pub record CostEstimate (F : Type 0) : Type 0 where
  pub symbol : String
  pub notional_usdt : F
  pub horizon_settlements : ℕ
  pub quoted_at_ms : ℕ
  pub valid_until_ms : ℕ
  pub evidence_end_exclusive_ms : ℕ
  pub artifact_sha256 : String
  pub kind : CostKind
  pub entry_fraction : F
  pub close_now_fraction : F
  pub terminal_close_fraction : F
  pub financing_fraction : F

abbrev is_nil : List ℕ → Bool
is_nil [] = true
is_nil (x ∷ xs) = false

-- `len(set(xs)) != len(xs)`
abbrev has_duplicate : List ℕ → Bool
has_duplicate [] = false
has_duplicate (x ∷ xs) = any (λ y. x == y) xs || has_duplicate xs

check_horizons : List ℕ → Result (Unit {0})
unfolding integer
check_horizons [] = ok tt
check_horizons (h ∷ hs) = integer h 1 >> check_horizons hs

-- `FundingApproval.__post_init__`
unfoldable pub check_approval : FundingApproval → Result FundingApproval
unfolding check_horizons is_digest
check_approval a = do
  raise_if (is_empty a.symbol || is_nil a.horizons) Error.value_error
  check_horizons a.horizons
  raise_if (has_duplicate a.horizons) Error.value_error
  integer a.interval_hours 1
  integer a.validation_end_exclusive_ms 0
  integer a.valid_until_ms (a.validation_end_exclusive_ms + 1)
  raise_if (ltb 24 a.interval_hours) Error.value_error
  raise_if (not (is_digest a.evidence_sha256)) Error.value_error
  raise_if (not (is_digest a.model_sha256)) Error.value_error
  ok a

module _ {F : Type 0} where
  -- `FundingForecast.__post_init__`
  unfoldable pub check_forecast : FundingForecast F → Result (FundingForecast F)
  unfolding is_digest
  check_forecast f = do
    raise_if (is_empty f.symbol) Error.value_error
    raise_if (not (is_digest f.model_sha256)) Error.value_error
    ok f

module _ {F : Type 0} ⦃n : Number F⦄ where
  -- `Policy.__post_init__`
  unfoldable pub check_policy : Policy F → Result (Policy F)
  check_policy p = do
    integer p.horizon_settlements 1
    number p.entry_probability
    number p.continuation_probability
    raise_if
        (not (
          nought ≼ p.continuation_probability
          && (p.continuation_probability ≺ p.entry_probability && p.entry_probability ≺ one)))
        Error.value_error
    ok p

  -- `Position.__post_init__`
  unfoldable pub check_position : Position F → Result (Position F)
  check_position p = do
    number p.notional_usdt
    raise_if (is_empty p.symbol || p.notional_usdt ≗ nought) Error.value_error
    integer p.opened_at_ms 0
    integer p.planned_settlements 1
    integer p.settlements_held 0
    integer p.interval_hours 1
    raise_if (ltb 24 p.interval_hours) Error.value_error
    ok p

  -- `CostEstimate.__post_init__`
  unfoldable pub check_estimate : CostEstimate F → Result (CostEstimate F)
  check_estimate c = do
    number c.notional_usdt
    raise_if (is_empty c.symbol || c.notional_usdt ≗ nought) Error.value_error
    integer c.horizon_settlements 1
    integer c.quoted_at_ms 0
    integer c.valid_until_ms (c.quoted_at_ms + 1)
    integer c.evidence_end_exclusive_ms 0
    raise_if (not (is_digest c.artifact_sha256)) Error.value_error
    number c.entry_fraction
    number c.close_now_fraction
    number c.terminal_close_fraction
    number c.financing_fraction
    ok c
