-- ===== src/FundingSeries/Coverage.antt =====
-- The times that the settlements which `validate` and `check_month` accept cover.
use mathlib.Core.Path.{subst}
use mathlib.Core.Bool.{true≢false}
use perpetuals_carry_strateg.Base.{
  ℕ, ◌+◌, ◌-◌, ◌*◌, ◌≤◌, ◌<◌, String, true, false, not, ◌||◌, Option, none, some, List, [], ◌∷◌,
  ◌≡◌, refl, sym, ap, ◌∙◌, ◌/◌, arith, inl, inr, ltb, leb, ◌==◌, Bool-cases, if-cases, or_false,
  leb→le, ltb→lt, ltb→ge,
}
use perpetuals_carry_strateg.Base.Lists.{length, get_last?, any}
use perpetuals_carry_strateg.Base.Result.{ok, Error, >>=-eq-ok, raise_if-eq-ok, ok_injective}
use perpetuals_carry_strateg.Number.{Number}
use perpetuals_carry_strateg.Rolling.History.{day_ms}
use perpetuals_carry_strateg.Calendar.{Date, month_bounds, month_index, month_of}
use perpetuals_carry_strateg.FundingSeries.{
  Settlement, tolerance_ms, step_of, any_pair, unordered, irregular, of_symbol, first_row,
  ends_refused, rate_refused, interval_refused, validate_series,
}
use perpetuals_carry_strateg.FundingSeries.Month.{
  Gap, MonthReport, follows, gaps_from, settlement_gaps, any_gap, is_implausible, check_coverage,
  check_month,
}

module _ {F : Type 0} (t stop : ℕ) where
  -- A time lies between two rows, of which the later one follows within its interval, or after the
  -- last, whose interval reaches the stop; up to the tolerance.
  pub data IsCovered : List (Settlement F) → Type 0 where
    between :
        {row next : Settlement F} {rows : List (Settlement F)}
        → row.funding_time ≤ t
        → t < next.funding_time
        → next.funding_time ≤ row.funding_time + step_of next + tolerance_ms
        → IsCovered (row ∷ next ∷ rows)
    after :
        {row : Settlement F}
        → row.funding_time ≤ t
        → stop ≤ row.funding_time + step_of row + tolerance_ms
        → IsCovered (row ∷ [])
    later :
        {row : Settlement F} {rows : List (Settlement F)} → IsCovered rows → IsCovered (row ∷ rows)

module _ {F : Type 0} where
  regular_pair : (row next : Settlement F) → irregular row next ≡ false → follows row next ≡ true
  regular_pair row next h = ground arith

module _ {F : Type 0} (rounded : ℕ → ℕ → ℕ) where
  gap_free :
      (previous row : Settlement F) (rows : List (Settlement F)) {gaps : List Gap}
      → gaps_from rounded previous (row ∷ rows) ≡ ok gaps
      → any_gap gaps ≡ false
      → (follows previous row ≡ true) × (gaps_from rounded row rows ≡ ok gaps)
  unfolding gaps_from
  gap_free previous row rows {gaps} h free = elim (if-cases (follows previous row) h) [
    | inl (in_time, e) ↦ (in_time, e)
    | inr (late, e) ↦
        let (_, e₁) = raise_if-eq-ok (step_of row == 0) Error.zero_division_error _ e in
        let (rest, _, e₂) = >>=-eq-ok (gaps_from rounded row rows) _ e₁ in
        let some_gap : any_gap gaps ≡ true = ap any_gap (sym (ok_injective e₂)) in
        elim (true≢false (sym some_gap ∙ free)) [ ]
  ]

  gaps_from-IsCovered :
      (t stop : ℕ) (row : Settlement F) (rows : List (Settlement F)) {gaps : List Gap}
      → gaps_from rounded row rows ≡ ok gaps
      → any_gap gaps ≡ false
      → row.funding_time ≤ t
      → ((last : Settlement F)
          → get_last? (row ∷ rows) ≡ some last
          → stop ≤ last.funding_time + step_of last + tolerance_ms)
      → IsCovered t stop (row ∷ rows)
  gaps_from-IsCovered t stop row [] h free since ends = after since (ends row refl)
  gaps_from-IsCovered t stop row (next ∷ rows) h free since ends =
      let (in_time, rest) = gap_free row next rows h free in
      elim (Bool-cases (ltb t next.funding_time)) [
        | inl before ↦
            let near =
              leb→le (next.funding_time - row.funding_time) (step_of next + tolerance_ms) in_time in
            between since (ltb→lt t next.funding_time before) (omega (arith, near))
        | inr reached ↦ later (
            gaps_from-IsCovered t stop next rows rest free (ltb→ge t next.funding_time reached)
              ends)
      ]

  regular-gaps_from :
      (row : Settlement F) (rows : List (Settlement F))
      → any_pair irregular (row ∷ rows) ≡ false
      → gaps_from rounded row rows ≡ ok []
  unfolding any_pair gaps_from
  regular-gaps_from row [] h = refl
  regular-gaps_from row (next ∷ rows) h =
      let (here, rest) = or_false (irregular row next) _ h in
      rw (regular_pair row next here) (regular-gaps_from next rows rest)

  regular-settlement_gaps :
      (rows : List (Settlement F))
      → any_pair irregular rows ≡ false
      → settlement_gaps rounded rows ≡ ok []
  unfolding settlement_gaps
  regular-settlement_gaps [] h = refl
  regular-settlement_gaps (row ∷ rows) h = regular-gaps_from row rows h

module _ {F : Type 0} ⦃n : Number F⦄ where
  -- What `validate` establishes of the times.
  record IsSpaced (rows : List (Settlement F)) (start end : ℕ) : Type 0 where
    pub regular : any_pair irregular rows ≡ false
    pub ends :
        ends_refused (start * day_ms) (end * day_ms) (first_row rows) (get_last? rows) ≡ false

  validate_series-IsSpaced :
      (rows : List (Settlement F)) (start end : ℕ)
      → validate_series rows start end ≡ ok tt
      → IsSpaced rows start end
  unfolding validate_series
  validate_series-IsSpaced rows start end h =
      let first = start * day_ms in
      let stop = end * day_ms in
      let (_, h₁) =
        raise_if-eq-ok (leb end start || length rows == 0) Error.funding_series_error _ h in
      let (_, h₂) =
        raise_if-eq-ok (not (of_symbol (first_row rows) rows)) Error.funding_series_error _ h₁ in
      let (_, h₃) = raise_if-eq-ok (any rate_refused rows) Error.funding_series_error _ h₂ in
      let (_, h₄) = raise_if-eq-ok (any interval_refused rows) Error.funding_series_error _ h₃ in
      let (_, h₅) =
        raise_if-eq-ok (any (λ row. not (row.date == row.funding_time / day_ms)) rows)
          Error.funding_series_error _ h₄ in
      let (_, h₆) =
        raise_if-eq-ok (any (λ row. ltb row.funding_time first || leb stop row.funding_time) rows)
          Error.funding_series_error _ h₅ in
      let (_, h₇) = raise_if-eq-ok (any_pair unordered rows) Error.funding_series_error _ h₆ in
      let (regular, h₈) =
        raise_if-eq-ok (any_pair irregular rows) Error.funding_series_error _ h₇ in
      let (ends, _) =
        raise_if-eq-ok (ends_refused first stop (first_row rows) (get_last? rows))
          Error.funding_series_error _ h₈ in
      record { regular = regular; ends = ends }

  -- The checks on a window and on a month agree on gaps: a series that `validate` accepts has none
  -- that `settlement_gaps` would list.
  pub validate_series-settlement_gaps :
      (rounded : ℕ → ℕ → ℕ) (rows : List (Settlement F)) (start end : ℕ)
      → validate_series rows start end ≡ ok tt
      → settlement_gaps rounded rows ≡ ok []
  validate_series-settlement_gaps rounded rows start end h =
      regular-settlement_gaps rounded rows (validate_series-IsSpaced rows start end h).regular

  spaced-IsCovered :
      (t start end : ℕ) (rows : List (Settlement F))
      → IsSpaced rows start end
      → start * day_ms + tolerance_ms ≤ t
      → t < end * day_ms
      → IsCovered t (end * day_ms) rows
  spaced-IsCovered t start end [] spaced since before = elim (true≢false spaced.ends) [ ]
  spaced-IsCovered t start end (row ∷ rows) spaced since before =
      gaps_from-IsCovered (λ a b. 0) t (end * day_ms) row rows
        (regular-gaps_from (λ a b. 0) row rows spaced.regular) refl
        (first_in_time (get_last? (row ∷ rows)) spaced.ends)
        (λ last k. last_in_time last (
          subst (λ o. ends_refused (start * day_ms) (end * day_ms) (some row) o ≡ false) k
            spaced.ends))
    where
      first_in_time :
          (o : Option (Settlement F))
          → ends_refused (start * day_ms) (end * day_ms) (some row) o ≡ false
          → row.funding_time ≤ t
      first_in_time none h = cc
      first_in_time (some last) h = ground arith

      last_in_time :
          (last : Settlement F)
          → ends_refused (start * day_ms) (end * day_ms) (some row) (some last) ≡ false
          → end * day_ms ≤ last.funding_time + step_of last + tolerance_ms
      last_in_time last h = ground arith

  -- A series that `validate` accepts covers its window: every time of it, but for the tolerance at
  -- its start, lies between two settlements of which the later one follows within its interval, or
  -- after the last, whose interval reaches the end; each up to the tolerance.
  pub validate_series-IsCovered :
      (rows : List (Settlement F)) (start end t : ℕ)
      → validate_series rows start end ≡ ok tt
      → start * day_ms + tolerance_ms ≤ t
      → t < end * day_ms
      → IsCovered t (end * day_ms) rows
  validate_series-IsCovered rows start end t h since before =
      spaced-IsCovered t start end rows (validate_series-IsSpaced rows start end h) since before

  -- A month that `check_month` accepts is covered from its first settlement to its end.
  pub check_month-IsCovered :
      (rounded : ℕ → ℕ → ℕ) (row : Settlement F) (rows : List (Settlement F)) (symbol : String)
      (month : Date) (t : ℕ) {report : MonthReport}
      → check_month rounded (row ∷ rows) symbol month ≡ ok report
      → row.funding_time ≤ t
      → t < (month_bounds month).1
      → IsCovered t (month_bounds month).1 (row ∷ rows)
  unfolding check_month settlement_gaps check_coverage
  check_month-IsCovered rounded row rows symbol month t {report} h since before =
      let (_, h₀) = raise_if-eq-ok (length (row ∷ rows) == 0) Error.funding_data_error _ h in
      let (_, h₁) =
        raise_if-eq-ok (any (λ r. not ((month_of r.date).0 == month_index month)) (row ∷ rows))
          Error.funding_data_error _ h₀ in
      let (gaps, found, h₂) = >>=-eq-ok (gaps_from rounded row rows) _ h₁ in
      let (free, h₃) = raise_if-eq-ok (any_gap gaps) Error.funding_data_error _ h₂ in
      let (_, h₄) =
        raise_if-eq-ok (any is_implausible (row ∷ rows)) Error.funding_data_error _ h₃ in
      gaps_from-IsCovered rounded t (month_bounds month).1 row rows found free since (λ last k.
        reaches last
          (subst (λ o. check_coverage (row ∷ rows) symbol month (some row) o ≡ ok report) k h₄))
    where
      reaches :
          (last : Settlement F) {report : MonthReport}
          → check_coverage (row ∷ rows) symbol month (some row) (some last) ≡ ok report
          → (month_bounds month).1 ≤ last.funding_time + step_of last + tolerance_ms
      reaches last h =
          let (short, _) =
            raise_if-eq-ok
              (ltb (last.funding_time + step_of last) ((month_bounds month).1 - tolerance_ms))
              Error.funding_data_error _ h in
          let far = ltb→ge (last.funding_time + step_of last) _ short in omega (arith, far)
