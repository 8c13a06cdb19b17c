-- ===== src/Impact/Estimate.antt =====
-- The estimate that `from_artifact` makes of an artifact file, as a decision sees it.
use perpetuals_carry_strateg.Base.{ℕ, ◌≤◌, Bool, true, false, not, ◌&&◌, none, ◌≡◌, refl}
use perpetuals_carry_strateg.Base.Result.{ok, Error, >>-eq-ok, >>=-eq-ok, raise_if-eq-ok}
use perpetuals_carry_strateg.Number.{Number, ◌≗◌, nought}
use perpetuals_carry_strateg.Checks.{integer, number}
use perpetuals_carry_strateg.Carry.Types.{CostEstimate, is_synthetic}
use perpetuals_carry_strateg.Carry.Decide.{CarryStrategy, costs_refused}
use perpetuals_carry_strateg.Costs.{ImpactCurve, ExecutionCharges, supports, check_charges}
use perpetuals_carry_strateg.Costs.Admitted.{from_curve-admitted}
use perpetuals_carry_strateg.Impact.Loading.{Reading, Stratum, load_curve, from_artifact}
use perpetuals_carry_strateg.Impact.Loaded.{IsLoaded, load_curve-IsLoaded}

calibrated :
    (synthetic allow : Bool) → (synthetic ≡ true → allow ≡ true) → (synthetic && not allow) ≡ false
calibrated false allow h = refl
calibrated true true h = refl
calibrated true false h = let allows = h refl in cc

module _ {F : Type 0} ⦃n : Number F⦄ where
  -- What an estimate made from a file rests on.
  pub record IsFounded (s : CarryStrategy F) (reading : Reading F) (now_ms horizon : ℕ)
      (fraction : F) (stratum : Stratum) (e : CostEstimate F) : Type 0 where
    pub curve : ImpactCurve F
    pub loaded : IsLoaded reading s.symbol now_ms stratum s.policy.allow_synthetic_costs curve
    pub supported : supports curve fraction ≡ true
    pub accepted : costs_refused s now_ms horizon none e ≡ false
    pub evidence : e.evidence_end_exclusive_ms ≤ now_ms

  -- An estimate that `from_artifact` returns, for the symbol of a strategy and its policy on synthetic
  -- costs, passes the test of `decide` on costs for an entry at the time of the quote. It rests on a
  -- loaded curve that supports its size, and its evidence had ended by then.
  pub from_artifact-IsFounded :
      (s : CarryStrategy F) (reading : Reading F) (now_ms until_ms : ℕ) (notional fraction : F)
      (horizon : ℕ) (stratum : Stratum) (charges : ExecutionCharges F) {e : CostEstimate F}
      → from_artifact reading s.symbol now_ms until_ms notional fraction horizon stratum charges
          s.policy.allow_synthetic_costs
        ≡ ok e
      → IsFounded s reading now_ms horizon fraction stratum e
  unfolding from_artifact
  from_artifact-IsFounded s reading now_ms until_ms notional fraction horizon stratum charges h =
      let allow = s.policy.allow_synthetic_costs in
      let (_, h₁) = >>-eq-ok (integer now_ms 0) _ h in
      let (_, h₂) = >>-eq-ok (number fraction) _ h₁ in
      let (_, h₃) = >>-eq-ok (check_charges charges) _ h₂ in
      let (_, h₄) = raise_if-eq-ok (fraction ≗ nought) Error.value_error _ h₃ in
      let (curve, c, made) = >>=-eq-ok (load_curve reading s.symbol now_ms stratum allow) _ h₄ in
      let loaded = load_curve-IsLoaded reading s.symbol now_ms stratum allow c in
      let (accepted, supported, ended) =
        from_curve-admitted s curve now_ms until_ms notional fraction horizon charges made
          loaded.named (calibrated (is_synthetic curve.kind) allow loaded.allowed) in
      record {
        curve = curve;
        loaded = loaded;
        supported = supported;
        accepted = accepted;
        evidence = ended;
      }
