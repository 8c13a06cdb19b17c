-- ===== src/Impact/Loaded.antt =====
-- What a curve that `load_curve` returns rests on.
use mathlib.Core.Path.{subst}
use mathlib.Core.Option.{some-injective}
use perpetuals_carry_strateg.Base.{
  ℕ, suc, ◌*◌, ◌≤◌, ◌<◌, String, Bool, true, false, not, ◌&&◌, ◌||◌, Option, none, some, List, [],
  ◌∷◌, ◌≡◌, refl, sym, ap, ◌∙◌, inl, inr, or_false, arith, if-cases, ltb, ltb→ge,
}
use perpetuals_carry_strateg.Base.Lists.{All, Among}
use perpetuals_carry_strateg.Base.Text.{str_eq}
use perpetuals_carry_strateg.Base.Result.{
  ok, Error, >>-eq-ok, >>=-eq-ok, raise_if-eq-ok, ok_injective,
}
use perpetuals_carry_strateg.Number.{Number, ◌≺◌, ◌≼◌, nought, maximum, minimum}
use perpetuals_carry_strateg.Checks.{integer, number}
use perpetuals_carry_strateg.Carry.Types.{is_synthetic, check_estimate}
use perpetuals_carry_strateg.Costs.{ImpactCurve, probe, check_curve}
use perpetuals_carry_strateg.Rolling.History.{day_ms}
use perpetuals_carry_strateg.Impact.{
  Side, Depth, Fit, Artifact, Identity, identity_eq, identity_of, depth_eq,
}
use perpetuals_carry_strateg.Impact.Validate.{validate}
use perpetuals_carry_strateg.Impact.Loading.{
  Reading, Stratum, identity_on, find, found_or, law, validated, load, side_of, curve_from,
  load_curve,
}
use perpetuals_carry_strateg.Impact.Chronology.{
  Within, unless_negated, IsSplit, validate-IsValid, validate-IsSplit,
}

ended_by :
    (low high now_ms : ℕ) (days : List ℕ)
    → high * day_ms ≤ now_ms
    → All (Within low high) days
    → All (λ day. suc day * day_ms ≤ now_ms) days
ended_by low high now_ms [] h all = tt
ended_by low high now_ms (day ∷ days) h ((_, before), rest) =
    (omega arith, ended_by low high now_ms days h rest)

only_allowed :
    (synthetic allow : Bool) → (synthetic && not allow) ≡ false → synthetic ≡ true → allow ≡ true
only_allowed true true h k = refl
only_allowed true false h k = cc
only_allowed false allow h k = cc

inside_only :
    (depth : Depth)
    → not (depth_eq depth Depth.inside_validated_depth) ≡ false
    → depth ≡ Depth.inside_validated_depth
inside_only Depth.inside_validated_depth h = refl
inside_only Depth.beyond_validated_depth h = cc

module _ {F : Type 0} where
  find-Among :
      (identity : Identity) (fits : List (Fit F)) (f : Fit F)
      → find identity fits ≡ some f
      → Among f fits × (identity_eq (identity_of f) identity ≡ true)
  unfolding find
  find-Among identity [] f h = cc
  find-Among identity (g ∷ fits) f h = elim (if-cases (identity_eq (identity_of g) identity) h) [
    | inl (match, e) ↦
        let same = some-injective _ _ e in
        (inl (sym same), ap (λ x. identity_eq (identity_of x) identity) (sym same) ∙ match)
    | inr (_, e) ↦ let (among, match) = find-Among identity fits f e in (inr among, match)
  ]

  found_or-eq-ok :
      (raised : Error) (o : Option (Fit F)) {f : Fit F} → found_or raised o ≡ ok f → o ≡ some f
  found_or-eq-ok raised none h = cc
  found_or-eq-ok raised (some g) h = ap some (ok_injective h)

module _ {F : Type 0} ⦃n : Number F⦄ where
  -- A side of a curve: the fit of the identity, which is usable, with its coefficient and sizes.
  pub record IsSide (a : Artifact F) (identity : Identity) (coefficient size_min size_max : F)
      : Type 0 where
    pub fit : Fit F
    pub among : Among fit a.fits
    pub of_identity : identity_eq (identity_of fit) identity ≡ true
    pub usable : fit.usable_as_nonnegative_impact_law ≡ true
    pub nonnegative : (coefficient ≺ nought) ≡ false
    pub coefficient_of : fit.model.coefficient ≡ coefficient
    pub size_min_of : fit.training_size_min ≡ size_min
    pub size_max_of : fit.training_size_max ≡ size_max

  side_of-IsSide :
      (a : Artifact F) (identity : Identity) {c : F} {sizes : F × F}
      → side_of a identity ≡ ok (c, sizes)
      → IsSide a identity c sizes.0 sizes.1
  unfolding side_of law
  side_of-IsSide a identity {c} {sizes} h =
      let (model, l, h₁) = >>=-eq-ok (law a identity) _ h in
      let (f, found, h₂) = >>=-eq-ok (found_or Error.stop_iteration (find identity a.fits)) _ h₁ in
      let (accepted, done) =
        raise_if-eq-ok (not f.usable_as_nonnegative_impact_law || model.coefficient ≺ nought)
          Error.impact_model_error _ h₂ in
      let (flag, sign) = or_false (not f.usable_as_nonnegative_impact_law) _ accepted in
      let (_, l₁) = >>-eq-ok (validate a) _ l in
      let (g, found', l₂) =
        >>=-eq-ok (found_or Error.impact_model_error (find identity a.fits)) _ l₁ in
      let first = found_or-eq-ok Error.stop_iteration (find identity a.fits) found in
      let again = found_or-eq-ok Error.impact_model_error (find identity a.fits) found' in
      let same : g ≡ f = some-injective _ _ (sym again ∙ first) in
      let coefficient : model.coefficient ≡ c = ap (λ x. x.0) (ok_injective done) in
      let own : f.model ≡ model = ap (λ x. x.model) (sym same) ∙ ok_injective l₂ in
      let (among, match) = find-Among identity a.fits f first in
      record {
        fit = f;
        among = among;
        of_identity = match;
        usable = unless_negated f.usable_as_nonnegative_impact_law flag;
        nonnegative = ap (λ x. x ≺ nought) (sym coefficient) ∙ sign;
        coefficient_of = ap (λ x. x.coefficient) own ∙ coefficient;
        size_min_of = ap (λ x. x.1.0) (ok_injective done);
        size_max_of = ap (λ x. x.1.1) (ok_injective done);
      }

  -- The days of a fit have ended by a time.
  pub record IsKnown (now_ms : ℕ) (f : Fit F) : Type 0 where
    pub train : All (λ day. suc day * day_ms ≤ now_ms) f.train_days
    pub test : All (λ day. suc day * day_ms ≤ now_ms) f.test_days

  -- What a loaded curve rests on: a valid artifact whose file did not change while it was read, of
  -- the symbol, of calibrated data unless synthetic data is allowed, whose fits use days that had
  -- ended; and a usable fit for either side, with the range of sizes that both support.
  pub record IsLoaded (reading : Reading F) (symbol : String) (now_ms : ℕ) (stratum : Stratum)
      (allow_synthetic : Bool) (curve : ImpactCurve F) : Type 0 where
    pub artifact : Artifact F
    pub decoded : reading.decoded ≡ some artifact
    pub valid : validate artifact ≡ ok tt
    pub unchanged : str_eq reading.after reading.before ≡ true
    pub digest : curve.artifact_sha256 ≡ reading.before
    pub named : curve.symbol ≡ symbol
    pub of_symbol : str_eq artifact.symbol symbol ≡ true
    pub kind : curve.kind ≡ artifact.provenance.kind
    pub allowed : is_synthetic curve.kind ≡ true → allow_synthetic ≡ true
    pub validated_depth : stratum.depth ≡ Depth.inside_validated_depth
    pub known : All (IsKnown now_ms) artifact.fits
    pub evidence : curve.evidence_end_exclusive_ms ≤ now_ms
    pub admitted : curve.admitted_at_ms ≡ now_ms
    pub sell_sizes : F × F
    pub buy_sizes : F × F
    pub sell :
        IsSide artifact
          (identity_on stratum Side.sell)
          curve.sell_coefficient_bps
          sell_sizes.0
          sell_sizes.1
    pub buy :
        IsSide artifact
          (identity_on stratum Side.buy)
          curve.buy_coefficient_bps
          buy_sizes.0
          buy_sizes.1
    pub lower : curve.size_min ≡ maximum sell_sizes.0 buy_sizes.0
    pub upper : curve.size_max ≡ minimum sell_sizes.1 buy_sizes.1

  IsSplit-IsKnown :
      (start cutoff end now_ms : ℕ) (fits : List (Fit F))
      → cutoff < end
      → end * day_ms ≤ now_ms
      → All (IsSplit start cutoff end) fits
      → All (IsKnown now_ms) fits
  IsSplit-IsKnown start cutoff end now_ms [] order h all = tt
  IsSplit-IsKnown start cutoff end now_ms (f ∷ fits) order h (split, rest) =
      let sooner : cutoff * day_ms ≤ now_ms = omega arith in
      (
        record {
          train = ended_by start cutoff now_ms f.train_days sooner split.train;
          test = ended_by cutoff end now_ms f.test_days h split.test;
        },
        IsSplit-IsKnown start cutoff end now_ms fits order h rest,
      )

  check_curve-eq :
      (c : ImpactCurve F) {curve : ImpactCurve F} → check_curve c ≡ ok curve → c ≡ curve
  unfolding check_curve
  check_curve-eq c h =
      let (_, _, h₁) = >>=-eq-ok (check_estimate (probe c)) _ h in
      let (_, h₂) = >>-eq-ok (number c.sell_coefficient_bps) _ h₁ in
      let (_, h₃) = >>-eq-ok (number c.buy_coefficient_bps) _ h₂ in
      let (_, h₄) = >>-eq-ok (number c.size_min) _ h₃ in
      let (_, h₅) = >>-eq-ok (number c.size_max) _ h₄ in
      let (_, h₆) =
        raise_if-eq-ok (not (nought ≺ c.size_min && c.size_min ≼ c.size_max))
          Error.impact_model_error _ h₅ in
      ok_injective h₆

  load-valid :
      (o : Option (Artifact F)) {a : Artifact F}
      → validated o ≡ ok a
      → (o ≡ some a) × (validate a ≡ ok tt)
  load-valid none h = cc
  load-valid (some b) h =
      let (_, valid, done) = >>=-eq-ok (validate b) _ h in
      let same = ok_injective done in (ap some same, subst (λ x. validate x ≡ ok tt) same valid)

  -- A curve that `load_curve` returns is of a valid artifact of the symbol, whose file did not change
  -- while it was read and whose data is not synthetic unless that is allowed. Every day on which a
  -- fit of the artifact was trained or tested has ended by now. Either coefficient is that of a
  -- usable fit of its side and stratum, inside the validated depth, and is not negative; the range
  -- of sizes is the common one of the two fits.
  pub load_curve-IsLoaded :
      (reading : Reading F) (symbol : String) (now_ms : ℕ) (stratum : Stratum)
      (allow_synthetic : Bool) {curve : ImpactCurve F}
      → load_curve reading symbol now_ms stratum allow_synthetic ≡ ok curve
      → IsLoaded reading symbol now_ms stratum allow_synthetic curve
  unfolding load_curve load
  load_curve-IsLoaded reading symbol now_ms stratum allow_synthetic h =
      let (_, h₁) = >>-eq-ok (integer now_ms 0) _ h in
      let (depth, h₂) =
        raise_if-eq-ok (not (depth_eq stratum.depth Depth.inside_validated_depth))
          Error.impact_model_error _ h₁ in
      let (a, loaded, h₃) = >>=-eq-ok (validated reading.decoded) _ h₂ in
      let (decoded, valid) = load-valid reading.decoded loaded in
      let (changed, h₄) =
        raise_if-eq-ok (not (str_eq reading.after reading.before)) Error.impact_model_error _ h₃ in
      let (scope, h₅) =
        raise_if-eq-ok (not (str_eq a.symbol symbol) || ltb now_ms (a.test_end_exclusive * day_ms))
          Error.impact_model_error _ h₄ in
      let (other, early) = or_false (not (str_eq a.symbol symbol)) _ scope in
      let (mocked, h₆) =
        raise_if-eq-ok (is_synthetic a.provenance.kind && not allow_synthetic)
          Error.impact_model_error _ h₅ in
      let (s, sold, h₇) = >>=-eq-ok (side_of a (identity_on stratum Side.sell)) _ h₆ in
      let (b, bought, h₈) = >>=-eq-ok (side_of a (identity_on stratum Side.buy)) _ h₇ in
      let c : ImpactCurve F = curve_from a reading.before now_ms symbol s b in
      let (_, h₉) = raise_if-eq-ok (c.size_max ≺ c.size_min) Error.impact_model_error _ h₈ in
      let ended : a.test_end_exclusive * day_ms ≤ now_ms = ltb→ge now_ms _ early in
      let order = (validate-IsValid a valid).ends in
      subst (IsLoaded reading symbol now_ms stratum allow_synthetic) (check_curve-eq c h₉) (record {
        artifact = a;
        decoded = decoded;
        valid = valid;
        unchanged = unless_negated (str_eq reading.after reading.before) changed;
        digest = refl;
        named = refl;
        of_symbol = unless_negated (str_eq a.symbol symbol) other;
        kind = refl;
        allowed = only_allowed (is_synthetic a.provenance.kind) allow_synthetic mocked;
        validated_depth = inside_only stratum.depth depth;
        known =
            IsSplit-IsKnown a.train_start a.train_end_exclusive a.test_end_exclusive now_ms a.fits
              order ended (validate-IsSplit a valid);
        evidence = ended;
        admitted = refl;
        sell_sizes = s.1;
        buy_sizes = b.1;
        sell = side_of-IsSide a (identity_on stratum Side.sell) sold;
        buy = side_of-IsSide a (identity_on stratum Side.buy) bought;
        lower = refl;
        upper = refl;
      })
