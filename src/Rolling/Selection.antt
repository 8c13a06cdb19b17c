-- ===== src/Rolling/Selection.antt =====
-- What `RollingFundingModel._selection` hands to the fit: the recent end of the history.
use mathlib.Core.Path.{subst}
use native.Mathlib.Nat.{le_trans}
use perpetuals_carry_strateg.Base.{
  ℕ, ◌+◌, ◌-◌, ◌*◌, ◌≤◌, true, false, Option, none, some, List, [], ◌∷◌, ◌≡◌, refl, sym, ◌∙◌, arith,
  ltb, ltb→ge, Bool-cases, inl, inr,
}
use perpetuals_carry_strateg.Base.Lists.{length, get_last?, All}
use perpetuals_carry_strateg.Base.Result.{ok, >>-eq-ok, ok_injective}
use perpetuals_carry_strateg.Carry.Decide.{hour_ms, jitter_ms}
use perpetuals_carry_strateg.Rolling.History.{
  day_ms, at_least, Row, RollingFundingModel, create, drop_before, rows_from, selection,
  select_from, select_at, decision_time,
}
use perpetuals_carry_strateg.Rolling.Regular.{
  IsSeries, IsRowSane, IsRegular, IsSeries-tail, drop_before-IsSeries, drop_before-All,
  drop_before-ge, first-le,
}

pub at_least-eq-ok : (value minimum : ℕ) → at_least value minimum ≡ ok tt → minimum ≤ value
unfolding at_least
at_least-eq-ok value minimum h = ground arith

module _ {F : Type 0} where
  -- A model begins regular.
  pub create-IsRegular :
      (days least : ℕ) {m : RollingFundingModel F} → create days least ≡ ok m → IsRegular m
  unfolding create
  create-IsRegular days least h =
      let (_, rest) = >>-eq-ok (at_least days 1) _ h in
      let (enough, done) = >>-eq-ok (at_least least 3) _ rest in
      subst IsRegular (ok_injective done)
        (record { enough = at_least-eq-ok least 3 enough; series = tt; sane = tt; within = tt })

  rows_from-All :
      (cutoff : ℕ) (rows : List (Row F))
      → All (λ r. cutoff ≤ r.time) rows
      → rows_from cutoff rows ≡ rows
  unfolding rows_from
  rows_from-All cutoff [] a = refl
  rows_from-All cutoff (row ∷ rows) (le, a) = ground (arith, rows_from-All cutoff rows a)

  rows_from-eq-drop_before :
      (cutoff : ℕ) (rows : List (Row F))
      → IsSeries rows
      → rows_from cutoff rows ≡ drop_before cutoff rows
  rows_from-eq-drop_before cutoff [] s = unfold rows_from drop_before in refl
  rows_from-eq-drop_before cutoff (row ∷ rows) s = elim (Bool-cases (ltb row.time cutoff)) [
    | inl old ↦ skip (rows_from-eq-drop_before cutoff rows (IsSeries-tail row rows s)) old
    | inr new ↦ keep new
  ]
    where
      skip :
          rows_from cutoff rows ≡ drop_before cutoff rows
          → ltb row.time cutoff ≡ true
          → rows_from cutoff (row ∷ rows) ≡ drop_before cutoff (row ∷ rows)
      skip ih old = unfold rows_from drop_before in ground arith

      keep :
          ltb row.time cutoff ≡ false
          → rows_from cutoff (row ∷ rows) ≡ drop_before cutoff (row ∷ rows)
      keep new =
          rows_from-All cutoff (row ∷ rows) (first-le cutoff row rows (ltb→ge _ _ new) s)
          ∙ unfold drop_before in rw new

  le-last :
      (rows : List (Row F)) (newest : Row F)
      → IsSeries rows
      → get_last? rows ≡ some newest
      → All (λ r. r.time ≤ newest.time) rows
  le-last [] newest s e = tt
  le-last (row ∷ []) newest s e = (ground arith, tt)
  le-last (row ∷ next ∷ rows) newest (f, s) e =
      let later = f.later in let rest = le-last (next ∷ rows) newest s e in (omega arith, rest)

  drop_before-last_nonempty :
      (cutoff : ℕ) (rows : List (Row F))
      → 1 ≤ length (drop_before cutoff rows)
      → get_last? (drop_before cutoff rows) ≡ get_last? rows
  unfolding drop_before
  drop_before-last_nonempty cutoff [] h = refl
  drop_before-last_nonempty cutoff (row ∷ []) h = ground arith
  drop_before-last_nonempty cutoff (row ∷ next ∷ rows) h =
      ground (arith, drop_before-last_nonempty cutoff (next ∷ rows))

  -- The rows of a selection at a decision time.
  pub record IsSelection (m : RollingFundingModel F) (decision : ℕ) (rows : List (Row F))
      : Type 0 where
    pub latest : Row F
    pub newest : get_last? m.history ≡ some latest
    pub same_end : get_last? rows ≡ some latest
    pub series : IsSeries rows
    pub sane : All IsRowSane rows
    pub enough : 3 ≤ length rows
    pub known : All (λ r. r.time ≤ decision) rows
    pub recent : All (λ r. decision - m.rolling_days * day_ms ≤ r.time) rows
    pub fresh : decision ≤ latest.time + (latest.hours * hour_ms + jitter_ms)

  All-imp :
      (P Q : Row F → Type 0)
      → ((r : Row F) → P r → Q r)
      → (rows : List (Row F)) → All P rows
      → All Q rows
  All-imp P Q f [] a = tt
  All-imp P Q f (row ∷ rows) (p, a) = (f row p, All-imp P Q f rows a)

  select_at-IsSelection :
      (m : RollingFundingModel F) (latest : Row F) (decision : ℕ) {chosen : ℕ × List (Row F)}
      → get_last? m.history ≡ some latest
      → select_at m latest decision ≡ ok chosen
      → IsRegular m
      → IsSelection m chosen.0 chosen.1
  unfolding select_at
  select_at-IsSelection m latest decision {chosen} last h r =
      let cutoff = decision - m.rolling_days * day_ms in
      let kept = drop_before cutoff m.history in
      let same : rows_from cutoff m.history ≡ kept =
        rows_from-eq-drop_before cutoff m.history r.series in
      let facts : (latest.time ≤ decision)
          × (decision ≤ latest.time + (latest.hours * hour_ms + jitter_ms))
          × (m.min_settlements ≤ length (rows_from cutoff m.history)) =
        ground arith in
      let long : 3 ≤ length kept =
        subst (λ rows. 3 ≤ length rows) same (le_trans r.enough facts.2) in
      let selection' : IsSelection m decision kept = record {
        latest = latest;
        newest = last;
        same_end = drop_before-last_nonempty cutoff m.history (omega arith) ∙ last;
        series = drop_before-IsSeries cutoff m.history r.series;
        sane = drop_before-All IsRowSane cutoff m.history r.sane;
        enough = long;
        known =
            drop_before-All (λ x. x.time ≤ decision) cutoff m.history
              (All-imp (λ x. x.time ≤ latest.time) (λ x. x.time ≤ decision)
                (λ x le. le_trans le facts.0) m.history (le-last m.history latest r.series last));
        recent = drop_before-ge cutoff m.history r.series;
        fresh = facts.1;
      } in
      subst (λ c. IsSelection m c.0 c.1) (chosen_by h)
        (subst (IsSelection m decision) (sym same) selection')
    where
      chosen_by :
          select_at m latest decision ≡ ok chosen
          → (decision, rows_from (decision - m.rolling_days * day_ms) m.history) ≡ chosen
      chosen_by e = ground arith

  select_from-IsSelection :
      (m : RollingFundingModel F) (as_of : Option ℕ) (last : Option (Row F))
      {chosen : ℕ × List (Row F)}
      → get_last? m.history ≡ last
      → select_from m as_of last ≡ ok chosen
      → IsRegular m
      → IsSelection m chosen.0 chosen.1
  unfolding select_from
  select_from-IsSelection m as_of none e h r = cc
  select_from-IsSelection m as_of (some latest) e h r =
      select_at-IsSelection m latest (decision_time as_of latest) e h r

  -- A selection from a regular history holds at least three rows of one regular series that end
  -- with the newest observation, all of them observed by the decision time and within the rolling
  -- window before it, and the newest is at most one interval and the jitter old.
  pub selection-IsSelection :
      (m : RollingFundingModel F) (as_of : Option ℕ) {decision : ℕ} {rows : List (Row F)}
      → selection m as_of ≡ ok (decision, rows)
      → IsRegular m
      → IsSelection m decision rows
  unfolding selection
  selection-IsSelection m as_of h r = select_from-IsSelection m as_of (get_last? m.history) refl h r
