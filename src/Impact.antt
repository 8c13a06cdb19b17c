-- ===== src/Impact.antt =====
-- The impact artifacts of python/perpcarry/models/impact_model_io.py, and the curves that
-- python/perpcarry/strategy/costs.py loads from them.
--
-- An artifact is the value that its JSON text decodes to. Its fields and their types are those of
-- the records below, a date in the canonical ISO format is its day since January 1st, 1970, and the
-- digits of a size bin are a list.
pub mod Fits
pub mod Validate
pub mod Loading
pub mod Chronology
pub mod Lookup
pub mod Loaded
pub mod Estimate
pub mod Corpus
mod Examples
use perpetuals_carry_strateg.Base.{
  ℕ, ◌+◌, ◌*◌, String, Bool, true, false, ◌&&◌, List, [], ◌∷◌, ltb, leb, ◌==◌,
}
use perpetuals_carry_strateg.Base.Lists.{any}
use perpetuals_carry_strateg.Base.Text.{str_eq}
use perpetuals_carry_strateg.Carry.Types.{CostKind}

pub data Side : Type 0 where
  buy sell : Side

pub data Form : Type 0 where
  square_root linear power_diagnostic : Form

pub data Depth : Type 0 where
  inside_validated_depth beyond_validated_depth : Depth

-- `all_sizes`, or `training_size_bin_` with digits.
pub data SizeRegime : Type 0 where
  all_sizes : SizeRegime
  training_size_bin : List ℕ → SizeRegime

-- `FittedLaw`
pub record FittedLaw (F : Type 0) : Type 0 where
  pub form : Form
  pub coefficient : F
  pub exponent : F

pub record Fit (F : Type 0) : Type 0 where
  pub side : Side
  pub schedule : String
  pub depth : Depth
  pub size_regime : SizeRegime
  pub size_bin_edges_adv_fraction : List F
  pub model : FittedLaw F
  pub train_rows : ℕ
  pub test_rows : ℕ
  pub train_days : List ℕ
  pub test_days : List ℕ
  pub training_size_min : F
  pub training_size_max : F
  pub usable_as_nonnegative_impact_law : Bool
  pub zero_training_targets : ℕ
  pub negative_training_targets : ℕ
  pub fit_rows_used : ℕ
  pub beyond_validated_depth_rows : ℕ

-- An item of `provenance["inputs"]`.
pub record Evidence : Type 0 where
  pub symbol : String
  pub date : ℕ
  pub manifest_sha256 : String

pub record Provenance : Type 0 where
  pub kind : CostKind
  pub fit_date : ℕ
  pub code_version : String
  pub fitting_source_sha256 : String
  pub inputs : List Evidence
  pub corpus_days : List ℕ
  pub supporting_train_rows : ℕ
  pub supporting_test_rows : ℕ
  pub row_count_scope : String

pub record Artifact (F : Type 0) : Type 0 where
  pub schema_version : ℕ
  pub symbol : String
  pub primary_form : String
  pub target : String
  pub size_unit : String
  pub output_unit : String
  pub train_start : ℕ
  pub train_end_exclusive : ℕ
  pub test_end_exclusive : ℕ
  pub provenance : Provenance
  pub caveats : List String
  pub fits : List (Fit F)

-- The five values by which a fit is found.
pub record Identity : Type 0 where
  pub side : Side
  pub schedule : String
  pub depth : Depth
  pub size_regime : SizeRegime
  pub form : Form

abbrev pub side_eq : Side → Side → Bool
side_eq Side.buy Side.buy = true
side_eq Side.sell Side.sell = true
side_eq _ _ = false

abbrev pub form_eq : Form → Form → Bool
form_eq Form.square_root Form.square_root = true
form_eq Form.linear Form.linear = true
form_eq Form.power_diagnostic Form.power_diagnostic = true
form_eq _ _ = false

abbrev pub depth_eq : Depth → Depth → Bool
depth_eq Depth.inside_validated_depth Depth.inside_validated_depth = true
depth_eq Depth.beyond_validated_depth Depth.beyond_validated_depth = true
depth_eq _ _ = false

abbrev pub digits_eq : List ℕ → List ℕ → Bool
digits_eq [] [] = true
digits_eq (x ∷ xs) (y ∷ ys) = x == y && digits_eq xs ys
digits_eq _ _ = false

abbrev pub regime_eq : SizeRegime → SizeRegime → Bool
regime_eq SizeRegime.all_sizes SizeRegime.all_sizes = true
regime_eq (SizeRegime.training_size_bin xs) (SizeRegime.training_size_bin ys) = digits_eq xs ys
regime_eq _ _ = false

unfoldable pub identity_eq : Identity → Identity → Bool
identity_eq a b =
    side_eq a.side b.side
    && (str_eq a.schedule b.schedule
        && (depth_eq a.depth b.depth
            && (regime_eq a.size_regime b.size_regime && form_eq a.form b.form)))

module _ {F : Type 0} where
  abbrev pub identity_of : Fit F → Identity
  identity_of f = record {
    side = f.side;
    schedule = f.schedule;
    depth = f.depth;
    size_regime = f.size_regime;
    form = f.model.form;
  }

-- Membership in a set of days, or of identities.
abbrev pub has_day : ℕ → List ℕ → Bool
has_day day days = any (λ d. d == day) days

abbrev pub has_identity : Identity → List Identity → Bool
has_identity identity identities = any (λ i. identity_eq i identity) identities

-- `low <= day < high`
abbrev pub inside : ℕ → ℕ → ℕ → Bool
inside low high day = leb low day && ltb day high

-- `int(digits)`
abbrev pub value_of : ℕ → List ℕ → ℕ
value_of value [] = value
value_of value (digit ∷ digits) = value_of (value * 10 + digit) digits
