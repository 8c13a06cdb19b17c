-- ===== src/Rolling/Update.antt =====
-- `RollingFundingModel.update` keeps the history regular, and keeps the newest row.
use mathlib.Core.Path.{subst}
use perpetuals_carry_strateg.Base.{
  ℕ, ◌+◌, ◌-◌, ◌*◌, ◌≤◌, false, Option, none, some, List, [], ◌∷◌, ◌++◌, ◌≡◌, arith, Bool-cases,
  inl, inr,
}
use perpetuals_carry_strateg.Base.Lists.{get_last?, All}
use perpetuals_carry_strateg.Base.Result.{ok, >>-eq-ok, ok_injective}
use perpetuals_carry_strateg.Number.{Number}
use perpetuals_carry_strateg.Rolling.History.{
  day_ms, Row, RollingFundingModel, drop_before, check_follows, resets, admitted, check_row, update,
}
use perpetuals_carry_strateg.Rolling.Regular.{
  IsSeries, IsRowSane, IsRegular, FollowsLast, IsSeries-snoc, All-snoc, drop_before-IsSeries,
  drop_before-All, drop_before-ge, drop_before-last,
}

module _ {F : Type 0} where
  check_follows-FollowsLast :
      (last : Option (Row F)) (row : Row F)
      → check_follows last row.time row.hours ≡ ok tt
      → resets last row.hours ≡ false
      → FollowsLast last row
  unfolding check_follows
  check_follows-FollowsLast none row h same = tt
  check_follows-FollowsLast (some previous) row h same = ground arith

  -- A regular series that a sane row is put behind, cut to the window of that row.
  windowed :
      (m : RollingFundingModel F) (kept : List (Row F)) (row : Row F) (resets' : ℕ)
      → IsSeries kept
      → All IsRowSane kept
      → FollowsLast (get_last? kept) row
      → IsRowSane row
      → 3 ≤ m.min_settlements
      → let rows = drop_before (row.time - m.rolling_days * day_ms) (kept ++ row ∷ []) in
        IsRegular (record m { history = rows; cadence_resets = resets' })
        × (get_last? rows ≡ some row)
  windowed m kept row resets' s a f sane enough =
      let cutoff = row.time - m.rolling_days * day_ms in
      let series = IsSeries-snoc kept row s f in
      let newest = drop_before-last cutoff kept row (omega arith) in
      let regular : IsRegular
          (record m { history = drop_before cutoff (kept ++ row ∷ []); cadence_resets = resets' }) =
        record {
          enough = enough;
          series = drop_before-IsSeries cutoff (kept ++ row ∷ []) series;
          sane =
              drop_before-All IsRowSane cutoff (kept ++ row ∷ [])
                (All-snoc IsRowSane kept row a sane);
          within = rw newest (drop_before-ge cutoff (kept ++ row ∷ []) series);
        } in
      (regular, newest)

  admitted-IsRegular :
      (m : RollingFundingModel F) (row : Row F)
      → check_follows (get_last? m.history) row.time row.hours ≡ ok tt
      → IsRowSane row
      → IsRegular m
      → IsRegular (admitted m row) × (get_last? (admitted m row).history ≡ some row)
  unfolding admitted
  admitted-IsRegular m row h sane r = elim (Bool-cases (resets (get_last? m.history) row.hours)) [
    | inl fresh ↦ rw fresh (windowed m [] row (m.cadence_resets + 1) tt tt tt sane r.enough)
    | inr same ↦ rw same (
        windowed m m.history row m.cadence_resets r.series r.sane
          (check_follows-FollowsLast (get_last? m.history) row h same) sane r.enough)
  ]

module _ {F : Type 0} ⦃n : Number F⦄ where
  check_row-IsRowSane : (row : Row F) → check_row row ≡ ok tt → IsRowSane row
  unfolding check_row
  check_row-IsRowSane row h = ground arith

  -- An observation that is accepted leaves a regular history: consecutive rows of one cadence, one
  -- interval apart up to the jitter, all within the rolling window of the newest, which is the
  -- observation itself.
  pub update-IsRegular :
      (m : RollingFundingModel F) (row : Row F) {m' : RollingFundingModel F}
      → update m row ≡ ok m'
      → IsRegular m
      → IsRegular m' × (get_last? m'.history ≡ some row)
  unfolding update
  update-IsRegular m row h r =
      let (sane, rest) = >>-eq-ok (check_row row) _ h in
      let (follows, done) =
        >>-eq-ok (check_follows (get_last? m.history) row.time row.hours) _ rest in
      subst (λ m'. IsRegular m' × (get_last? m'.history ≡ some row)) (ok_injective done)
        (admitted-IsRegular m row follows (check_row-IsRowSane row sane) r)

  -- What holds of every row of the history and of an accepted observation holds of every row after.
  pub update-All :
      (P : Row F → Type 0) (m : RollingFundingModel F) (row : Row F) {m' : RollingFundingModel F}
      → update m row ≡ ok m'
      → All P m.history
      → P row
      → All P m'.history
  unfolding update admitted
  update-All P m row h a p =
      let (_, rest) = >>-eq-ok (check_row row) _ h in
      let (_, done) = >>-eq-ok (check_follows (get_last? m.history) row.time row.hours) _ rest in
      let cutoff = row.time - m.rolling_days * day_ms in
      subst (λ m'. All P m'.history) (ok_injective done)
        (elim (Bool-cases (resets (get_last? m.history) row.hours)) [
          | inl fresh ↦ rw fresh (drop_before-All P cutoff (row ∷ []) (p, tt))
          | inr same ↦
              rw same
                (drop_before-All P cutoff (m.history ++ row ∷ []) (All-snoc P m.history row a p))
        ])
