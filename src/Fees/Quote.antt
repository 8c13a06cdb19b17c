-- ===== src/Fees/Quote.antt =====
-- What `FeeSchedule.quote` charges, for schedules that passed `__post_init__`.
use text.Mathlib.TextEquality.{eq_iff}
use perpetuals_carry_strateg.Base.{
  ℕ, ◌≤◌, ◌≡◌, refl, ◌⊎◌, inl, inr, String, Bool, true, false, List, [], ◌∷◌, if◌then◌else◌, arith,
  Bool-cases, or_false,
}
use perpetuals_carry_strateg.Base.Lists.{any, Among}
use perpetuals_carry_strateg.Base.Result.{ok, >>-eq-ok, raise_if-eq-ok}
use perpetuals_carry_strateg.Checks.{timestamp, timestamp-ok}
use perpetuals_carry_strateg.Fees.{
  Market, FeeKind, FeePeriod, FeeSchedule, market_eq, overlaps, some_overlap, covers, charge,
  quote_from, quote, check_schedule, no_periods,
}

market_eq→eq : (a b : Market) → market_eq a b ≡ true → a ≡ b
market_eq→eq a b h = ground arith

market_eq_refl : (a : Market) → market_eq a a ≡ true
market_eq_refl a = ground arith

module _ {D : Type 0} where
  -- Two periods that cover one time of one market overlap.
  covers-overlaps :
      (p q : FeePeriod D) (symbol : String) (market : Market) (t : ℕ)
      → covers p symbol market t ≡ true
      → covers q symbol market t ≡ true
      → overlaps p q ≡ true
  unfolding covers overlaps
  covers-overlaps p q symbol market t hp hq = ground (
    arith,
    eq_iff p.symbol symbol,
    eq_iff q.symbol symbol,
    eq_iff p.symbol q.symbol,
    market_eq→eq p.market market,
    market_eq→eq q.market market,
    market_eq_refl p.market,
  )

  -- The evidence for a rate at a time: observed by then, or an assumption that the schedule admits.
  abbrev pub IsAdmitted : Bool → FeePeriod D → ℕ → Type 0
  IsAdmitted allow p t =
      ((p.kind ≡ FeeKind.assumption) × (allow ≡ true))
      ⊎ ((p.kind ≡ FeeKind.verified) × (p.observed_at_ms ≤ t))

  charge-IsAdmitted :
      (allow : Bool) (p : FeePeriod D) (t : ℕ) {rate : D}
      → charge allow p t ≡ ok rate
      → (rate ≡ p.taker_fraction) × IsAdmitted allow p t
  unfolding charge
  charge-IsAdmitted allow p t h = ground arith

  quote_from-IsAdmitted :
      (allow : Bool) (symbol : String) (market : Market) (t : ℕ) (ps : List (FeePeriod D))
      {rate : D}
      → quote_from allow symbol market t ps ≡ ok rate
      → (p : FeePeriod D) × Among p ps
        × (covers p symbol market t ≡ true)
        × (rate ≡ p.taker_fraction)
        × IsAdmitted allow p t
  unfolding quote_from
  quote_from-IsAdmitted allow symbol market t [] h = cc
  quote_from-IsAdmitted allow symbol market t (p ∷ ps) h =
      elim (Bool-cases (covers p symbol market t)) [
        | inl c ↦
            let (same, admitted) = charge-IsAdmitted allow p t (rw (c, if◌then◌else◌) at h) in
            (p, inl refl, c, same, admitted)
        | inr other ↦
            let (q, m, c, same, admitted) =
              quote_from-IsAdmitted allow symbol market t ps (rw (other, if◌then◌else◌) at h) in
            (q, inr m, c, same, admitted)
      ]

  checked :
      (fees : FeeSchedule D)
      → check_schedule fees ≡ ok fees
      → (no_periods fees.periods ≡ false) × (some_overlap fees.periods ≡ false)
  unfolding check_schedule
  checked fees h = let (a, rest) = raise_if-eq-ok _ _ _ h in (a, (raise_if-eq-ok _ _ _ rest).0)

  not_any :
      (f : FeePeriod D → Bool) {p : FeePeriod D} (ps : List (FeePeriod D))
      → any f ps ≡ false
      → Among p ps
      → f p ≡ false
  not_any f [] h m = absurd m
  not_any f (q ∷ ps) h (inl e) = rw e (or_false _ _ h).0
  not_any f (q ∷ ps) h (inr m) = not_any f ps (or_false _ _ h).1 m

  quote_from_lem :
      (allow : Bool) (symbol : String) (market : Market) (t : ℕ) (p : FeePeriod D)
      (ps : List (FeePeriod D))
      → some_overlap ps ≡ false
      → Among p ps
      → covers p symbol market t ≡ true
      → quote_from allow symbol market t ps ≡ charge allow p t
  unfolding quote_from some_overlap
  quote_from_lem allow symbol market t p [] o m c = absurd m
  quote_from_lem allow symbol market t p (q ∷ ps) o (inl e) c = rw (← e, c)
  quote_from_lem allow symbol market t p (q ∷ ps) o (inr m) c =
      elim (Bool-cases (covers q symbol market t)) [
        | inl both ↦
            let clash : overlaps q p ≡ true = covers-overlaps q p symbol market t both c in
            let none_found : overlaps q p ≡ false = not_any (overlaps q) ps (or_false _ _ o).0 m in
            cc
        | inr other ↦ rw other (quote_from_lem allow symbol market t p ps (or_false _ _ o).1 m c)
      ]

  -- In a schedule that passed its checks, a quote is the charge of the period that covers the market
  -- at that time, wherever it stands among the periods: its fraction, or an error where it is an
  -- assumption not admitted or rests on evidence observed later.
  pub quote-eq-charge :
      (fees : FeeSchedule D) (symbol : String) (market : Market) (t : ℕ) (p : FeePeriod D)
      → check_schedule fees ≡ ok fees
      → Among p fees.periods
      → covers p symbol market t ≡ true
      → quote fees symbol market t ≡ charge fees.allow_assumptions p t
  unfolding quote check_schedule
  quote-eq-charge fees symbol market t p valid m c = rw (timestamp-ok t) (
      quote_from_lem fees.allow_assumptions symbol market t p fees.periods (checked fees valid).1 m
        c)

  -- A rate that is quoted is that of some period of the schedule which covers the market at the
  -- time, and which is either an admitted assumption or evidence observed by then.
  pub quote-IsAdmitted :
      (fees : FeeSchedule D) (symbol : String) (market : Market) (t : ℕ) {rate : D}
      → quote fees symbol market t ≡ ok rate
      → (p : FeePeriod D) × Among p fees.periods
        × (covers p symbol market t ≡ true)
        × (rate ≡ p.taker_fraction)
        × IsAdmitted fees.allow_assumptions p t
  unfolding quote
  quote-IsAdmitted fees symbol market t h =
      quote_from-IsAdmitted fees.allow_assumptions symbol market t fees.periods
        (>>-eq-ok (timestamp t) _ h).1
