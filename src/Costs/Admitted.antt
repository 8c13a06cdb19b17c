-- ===== src/Costs/Admitted.antt =====
-- What `from_curve` returns is what `CarryStrategy.decide` admits.
use text.Mathlib.TextEquality.{eq_iff}
use perpetuals_carry_strateg.Base.{ℕ, ◌+◌, ◌≤◌, ◌<◌, true, false, not, ◌&&◌, none, ◌≡◌, refl, arith}
use perpetuals_carry_strateg.Base.Result.{ok}
use perpetuals_carry_strateg.Number.{Number}
use perpetuals_carry_strateg.Checks.{integer-eq-ok}
use perpetuals_carry_strateg.Carry.Types.{is_synthetic, CostEstimate, check_estimate}
use perpetuals_carry_strateg.Carry.Decide.{CarryStrategy, costs_refused}
use perpetuals_carry_strateg.Costs.{
  ImpactCurve, ExecutionCharges, estimate_of, supports, from_curve,
}

module _ {F : Type 0} ⦃n : Number F⦄ where
  -- An estimate that passed its checks is itself, and is in force when it is quoted.
  pub check_estimate-eq-ok :
      (c : CostEstimate F) {e : CostEstimate F}
      → check_estimate c ≡ ok e
      → (c ≡ e) × (c.quoted_at_ms < c.valid_until_ms)
  unfolding check_estimate
  check_estimate-eq-ok c h = ground (arith, integer-eq-ok c.valid_until_ms (c.quoted_at_ms + 1))

  estimate_of-times :
      (curve : ImpactCurve F) (now until : ℕ) (notional fraction : F) (horizon : ℕ)
      (charges : ExecutionCharges F)
      → let c = estimate_of curve now until notional fraction horizon charges in
        (c.quoted_at_ms ≡ now) × (c.valid_until_ms ≡ until)
  unfolding estimate_of
  estimate_of-times curve now until notional fraction horizon charges = (refl, refl)

  pub from_curve-eq-ok :
      (curve : ImpactCurve F) (now until : ℕ) (notional fraction : F) (horizon : ℕ)
      (charges : ExecutionCharges F) {e : CostEstimate F}
      → from_curve curve now until notional fraction horizon charges ≡ ok e
      → (curve.admitted_at_ms ≤ now)
        × (curve.evidence_end_exclusive_ms ≤ now)
        × (supports curve fraction ≡ true)
        × (now < until)
        × (estimate_of curve now until notional fraction horizon charges ≡ e)
  unfolding from_curve
  from_curve-eq-ok curve now until notional fraction horizon charges {e} h = ground (
    arith,
    check_estimate-eq-ok (estimate_of curve now until notional fraction horizon charges) {e = e},
    estimate_of-times curve now until notional fraction horizon charges,
  )

  -- An estimate that `from_curve` returns passes the test of `decide` on costs, for an entry at the
  -- time of the quote, if the curve is of the strategy's symbol, the horizon is the one asked for, and
  -- the curve is calibrated or the policy admits synthetic costs. Its size is one that the curve
  -- supports and its evidence had ended by then.
  pub from_curve-admitted :
      (s : CarryStrategy F) (curve : ImpactCurve F) (now until : ℕ) (notional fraction : F)
      (horizon : ℕ) (charges : ExecutionCharges F) {e : CostEstimate F}
      → from_curve curve now until notional fraction horizon charges ≡ ok e
      → curve.symbol ≡ s.symbol
      → (is_synthetic curve.kind && not s.policy.allow_synthetic_costs) ≡ false
      → (costs_refused s now horizon none e ≡ false)
        × (supports curve fraction ≡ true)
        × (e.evidence_end_exclusive_ms ≤ now)
  unfolding costs_refused estimate_of
  from_curve-admitted s curve now until notional fraction horizon charges h named calibrated =
      let (_, ended, supported, in_force, same) =
        from_curve-eq-ok curve now until notional fraction horizon charges h in
      rw (← same) (ground (arith, eq_iff curve.symbol s.symbol))
