-- ===== src/Costs.antt =====
-- Execution cost estimates from an impact curve: python/perpcarry/strategy/costs.py, and the charges
-- that python/perpcarry/strategy/sizing.py passes to it.
pub mod Admitted
mod Examples
use perpetuals_carry_strateg.Base.{ℕ, ◌+◌, String, Bool, not, ◌&&◌, ◌||◌, ltb, List, [], ◌∷◌}
use perpetuals_carry_strateg.Base.Result.{Result, ok, Error, raise_if, ◌>>◌, ◌>>=◌}
use perpetuals_carry_strateg.Number.{
  Number, ◌⊕◌, ◌⊗◌, ◌⊘◌, ◌≺◌, ◌≼◌, nought, one, number_of, square_root,
}
use perpetuals_carry_strateg.Checks.{integer, number}
use perpetuals_carry_strateg.Carry.Types.{CostKind, CostEstimate, check_estimate}

pub record ImpactCurve (F : Type 0) : Type 0 where
  pub symbol : String
  pub admitted_at_ms : ℕ
  pub evidence_end_exclusive_ms : ℕ
  pub artifact_sha256 : String
  pub kind : CostKind
  pub sell_coefficient_bps : F
  pub buy_coefficient_bps : F
  pub size_min : F
  pub size_max : F

pub record ExecutionCharges (F : Type 0) : Type 0 where
  pub entry_half_spread_bps : F
  pub close_half_spread_bps : F
  pub entry_fee_bps : F
  pub close_fee_bps : F
  pub hedge_entry_bps : F
  pub hedge_close_bps : F
  pub financing_fraction : F

module _ {F : Type 0} ⦃n : Number F⦄ where
  -- `x / 10_000`
  abbrev pub of_bps : F → F
  of_bps x = x ⊘ number_of 10_000

  -- The estimate that `ImpactCurve.__post_init__` constructs for its checks.
  abbrev pub probe : ImpactCurve F → CostEstimate F
  probe curve = record {
    symbol = curve.symbol;
    notional_usdt = one;
    horizon_settlements = 1;
    quoted_at_ms = curve.admitted_at_ms;
    valid_until_ms = curve.admitted_at_ms + 1;
    evidence_end_exclusive_ms = curve.evidence_end_exclusive_ms;
    artifact_sha256 = curve.artifact_sha256;
    kind = curve.kind;
    entry_fraction = nought;
    close_now_fraction = nought;
    terminal_close_fraction = nought;
    financing_fraction = nought;
  }

  -- `ImpactCurve.__post_init__`
  unfoldable pub check_curve : ImpactCurve F → Result (ImpactCurve F)
  check_curve curve = do
    _ ← check_estimate (probe curve)
    number curve.sell_coefficient_bps
    number curve.buy_coefficient_bps
    number curve.size_min
    number curve.size_max
    raise_if (not (nought ≺ curve.size_min && curve.size_min ≼ curve.size_max))
        Error.impact_model_error
    ok curve

  -- The loop over the charges in `from_curve`.
  unfoldable pub check_charges : ExecutionCharges F → Result (Unit {0})
  check_charges charges = do
    number charges.entry_half_spread_bps
    number charges.close_half_spread_bps
    number charges.entry_fee_bps
    number charges.close_fee_bps
    number charges.hedge_entry_bps
    number charges.hedge_close_bps
    number charges.financing_fraction

  abbrev pub entry_cost : ImpactCurve F → F → ExecutionCharges F → F
  entry_cost curve adv_fraction charges = of_bps (
      curve.sell_coefficient_bps ⊗ square_root adv_fraction
      ⊕ charges.entry_half_spread_bps
      ⊕ charges.entry_fee_bps
      ⊕ charges.hedge_entry_bps)

  abbrev pub close_cost : ImpactCurve F → F → ExecutionCharges F → F
  close_cost curve adv_fraction charges = of_bps (
      curve.buy_coefficient_bps ⊗ square_root adv_fraction
      ⊕ charges.close_half_spread_bps
      ⊕ charges.close_fee_bps
      ⊕ charges.hedge_close_bps)

  -- The estimate that `from_curve` constructs; the terminal cost is today's cost of closing.
  unfoldable pub estimate_of :
      ImpactCurve F → ℕ → ℕ → F → F → ℕ → ExecutionCharges F → CostEstimate F
  estimate_of curve now_ms valid_until_ms notional_usdt adv_fraction horizon charges = record {
    symbol = curve.symbol;
    notional_usdt = notional_usdt;
    horizon_settlements = horizon;
    quoted_at_ms = now_ms;
    valid_until_ms = valid_until_ms;
    evidence_end_exclusive_ms = curve.evidence_end_exclusive_ms;
    artifact_sha256 = curve.artifact_sha256;
    kind = curve.kind;
    entry_fraction = entry_cost curve adv_fraction charges;
    close_now_fraction = close_cost curve adv_fraction charges;
    terminal_close_fraction = close_cost curve adv_fraction charges;
    financing_fraction = charges.financing_fraction;
  }

  -- Whether the curve's fit supports the size.
  abbrev pub supports : ImpactCurve F → F → Bool
  supports curve adv_fraction = curve.size_min ≼ adv_fraction && adv_fraction ≼ curve.size_max

  unfoldable pub from_curve :
      ImpactCurve F → ℕ → ℕ → F → F → ℕ → ExecutionCharges F → Result (CostEstimate F)
  from_curve curve now_ms valid_until_ms notional_usdt adv_fraction horizon charges = do
    integer now_ms 0
    number adv_fraction
    raise_if (ltb now_ms curve.admitted_at_ms || ltb now_ms curve.evidence_end_exclusive_ms)
        Error.impact_model_error
    raise_if (not (supports curve adv_fraction)) Error.impact_model_error
    check_charges charges
    check_estimate
        (estimate_of curve now_ms valid_until_ms notional_usdt adv_fraction horizon charges)
