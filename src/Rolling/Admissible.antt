-- ===== src/Rolling/Admissible.antt =====
-- A forecast from a regular history passes the test of `CarryStrategy.decide` on forecasts.
use mathlib.Core.Path.{subst}
use mathlib.Core.Option.{some-injective}
use perpetuals_carry_strateg.Base.{
  suc, ap, ℕ, ◌≤◌, String, true, false, not, Option, none, some, List, [], ◌∷◌, map, ◌≡◌, refl, sym,
  arith, and_true,
}
use perpetuals_carry_strateg.Base.Lists.{length, get_last?, all, All}
use perpetuals_carry_strateg.Base.Result.{
  Result, ok, Error, >>-eq-ok, >>=-eq-ok, raise_if-eq-ok, ok_injective,
}
use perpetuals_carry_strateg.Number.{Number, ◌⊘◌, number_of, is_finite}
use perpetuals_carry_strateg.Carry.Types.{
  CumulativeFundingForecast, FundingForecast, check_forecast,
}
use perpetuals_carry_strateg.Carry.Decide.{invalid_forecast}
use perpetuals_carry_strateg.Rolling.History.{
  Row, RollingFundingModel, at_least, selection, select_from, select_at,
}
use perpetuals_carry_strateg.Rolling.Regular.{IsRegular, IsSeries, IsRowSane}
use perpetuals_carry_strateg.Rolling.Selection.{at_least-eq-ok, IsSelection, selection-IsSelection}
use perpetuals_carry_strateg.Rolling.Forecast.{describe, in_fractions, predict, from_model}

module _ {F : Type 0} where
  -- The last row of a list has what all its rows have.
  All-last :
      (P : Row F → Type 0) (rows : List (Row F)) (newest : Row F)
      → All P rows
      → get_last? rows ≡ some newest
      → P newest
  All-last P [] newest a e = cc
  All-last P (row ∷ []) newest a e = subst P (some-injective _ _ e) a.0
  All-last P (row ∷ next ∷ rows) newest a e = All-last P (next ∷ rows) newest a.1 e

  first-le-last :
      (row : Row F) (rows : List (Row F)) (newest : Row F)
      → IsSeries (row ∷ rows)
      → get_last? (row ∷ rows) ≡ some newest
      → row.time ≤ newest.time
  first-le-last row [] newest s e = ground arith
  first-le-last row (next ∷ rows) newest (f, s) e =
      let later = f.later in omega (arith, first-le-last next rows newest s e)

  select_from-time :
      (m : RollingFundingModel F) (now : ℕ) (last : Option (Row F)) {chosen : ℕ × List (Row F)}
      → select_from m (some now) last ≡ ok chosen
      → chosen.0 ≡ now
  unfolding select_from select_at
  select_from-time m now none h = cc
  select_from-time m now (some latest) h = ground arith

  selection-time :
      (m : RollingFundingModel F) (now : ℕ) {chosen : ℕ × List (Row F)}
      → selection m (some now) ≡ ok chosen
      → chosen.0 ≡ now
  unfolding selection
  selection-time m now h = select_from-time m now (get_last? m.history) h

  describe-eq-ok :
      (decision horizon seed : ℕ) (samples : List F) (rows : List (Row F)) (newest : Row F)
      {f : CumulativeFundingForecast F}
      → get_last? rows ≡ some newest
      → describe decision horizon seed samples rows (get_last? rows) ≡ ok f
      → (first : Row F) × (rest : List (Row F)) × (rows ≡ first ∷ rest)
        × (f ≡ record {
          samples = samples;
          horizon_settlements = horizon;
          interval_hours = newest.hours;
          as_of = decision;
          last_observation_time = newest.time;
          training_first_time = first.time;
          training_settlements = length rows;
          seed = seed;
        })
  unfolding describe
  describe-eq-ok decision horizon seed samples [] newest e h = cc
  describe-eq-ok decision horizon seed samples (first ∷ rest) newest e h =
      (first, rest, refl, sym (ok_injective (rw (e, describe) at h)))

module _ {F : Type 0} ⦃n : Number F⦄ where
  -- A forecast that passed its checks is itself.
  check_forecast-eq-ok :
      (g : FundingForecast F) {f : FundingForecast F} → check_forecast g ≡ ok f → g ≡ f
  unfolding check_forecast
  check_forecast-eq-ok g h = ground arith

  length-map : (f : F → F) (xs : List F) → length (map f xs) ≡ length xs
  length-map f [] = refl
  length-map f (x ∷ xs) = ap suc (length-map f xs)

  all-finite :
      ((x : F) → is_finite x ≡ true → is_finite (x ⊘ number_of 10_000) ≡ true)
      → (xs : List F) → all is_finite xs ≡ true
      → all is_finite (in_fractions xs) ≡ true
  all-finite scaled [] h = refl
  all-finite scaled (x ∷ xs) h =
      let (head, rest) = and_true (is_finite x) _ h in rw (scaled x head, all-finite scaled xs rest)

  -- A selection's forecast passes every part of the test.
  forecast-valid :
      (m : RollingFundingModel F) (now horizon seed : ℕ) (samples : List F) (rows : List (Row F))
      {f : CumulativeFundingForecast F}
      → IsSelection m now rows
      → 2 ≤ length samples
      → all is_finite samples ≡ true
      → describe now horizon seed samples rows (get_last? rows) ≡ ok f
      → invalid_forecast now horizon f ≡ false
  unfolding invalid_forecast
  forecast-valid m now horizon seed samples rows s long finite h =
      let newest = s.latest in
      let (first, rest, split, made) =
        describe-eq-ok now horizon seed samples rows newest s.same_end h in
      let order : first.time ≤ newest.time =
        first-le-last first rest newest (subst IsSeries split s.series)
          (subst (λ r. get_last? r ≡ some newest) split s.same_end) in
      let known = All-last (λ r. r.time ≤ now) rows newest s.known s.same_end in
      let sane = All-last IsRowSane rows newest s.sane s.same_end in
      let enough = s.enough in let fresh = s.fresh in rw made (ground arith)

  predict-valid :
      (paths : List (Row F) → ℕ → ℕ → ℕ → Result (List F))
      → ((rows : List (Row F)) (horizon draws seed : ℕ) (total : List F)
          → paths rows horizon draws seed ≡ ok total
          → length total ≡ draws)
      → ((x : F) → is_finite x ≡ true → is_finite (x ⊘ number_of 10_000) ≡ true)
      → (m : RollingFundingModel F) (horizon now draws seed : ℕ) {f : CumulativeFundingForecast F}
      → predict paths m horizon (some now) draws seed ≡ ok f
      → IsRegular m
      → invalid_forecast now horizon f ≡ false
  unfolding predict
  predict-valid paths counts scaled m horizon now draws seed h r =
      let (_, h₁) = >>-eq-ok (at_least horizon 1) _ h in
      let (two, h₂) = >>-eq-ok (at_least draws 2) _ h₁ in
      let (_, h₃) = >>-eq-ok (at_least seed 0) _ h₂ in
      let (chosen, picked, h₄) = >>=-eq-ok (selection m (some now)) _ h₃ in
      let (total, sampled, h₅) = >>=-eq-ok (paths chosen.1 horizon draws seed) _ h₄ in
      let (finite, h₆) =
        raise_if-eq-ok (not (all is_finite total)) Error.funding_model_unavailable _ h₅ in
      let samples = in_fractions total in
      let at_now = selection-time m now picked in
      let s =
        subst (λ t. IsSelection m t chosen.1) at_now
          (selection-IsSelection m (some now) picked r) in
      let long : 2 ≤ length samples =
        rw (length-map (λ x. x ⊘ number_of 10_000) total, counts _ _ _ _ total sampled)
          (at_least-eq-ok draws 2 two) in
      forecast-valid m now horizon seed samples chosen.1 s long
        (all-finite scaled total (ground arith)) (rw at_now at h₆)

  -- A forecast that a regular history gives at a decision time passes the decision's test on
  -- forecasts: it is made then, of fresh observations up to then, for the horizon asked, with at
  -- least two finite samples. It assumes of the sampled paths that there are as many as draws, and
  -- of finite floats that they stay finite when divided by 10,000.
  pub from_model-valid :
      (paths : List (Row F) → ℕ → ℕ → ℕ → Result (List F))
      → ((rows : List (Row F)) (horizon draws seed : ℕ) (total : List F)
          → paths rows horizon draws seed ≡ ok total
          → length total ≡ draws)
      → ((x : F) → is_finite x ≡ true → is_finite (x ⊘ number_of 10_000) ≡ true)
      → (symbol digest : String) (m : RollingFundingModel F) (horizon now draws seed : ℕ)
        {f : FundingForecast F}
      → from_model paths symbol digest m horizon now draws seed ≡ ok f
      → IsRegular m
      → (invalid_forecast now horizon f.prediction ≡ false)
        × (f.symbol ≡ symbol)
        × (f.model_sha256 ≡ digest)
  unfolding from_model
  from_model-valid paths counts scaled symbol digest m horizon now draws seed h r =
      let (prediction, predicted, made) =
        >>=-eq-ok (predict paths m horizon (some now) draws seed) _ h in
      subst
        (λ f.
          (invalid_forecast now horizon f.prediction ≡ false)
          × (f.symbol ≡ symbol)
          × (f.model_sha256 ≡ digest))
        (check_forecast-eq-ok _ made)
        (predict-valid paths counts scaled m horizon now draws seed predicted r, refl, refl)
