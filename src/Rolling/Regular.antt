-- ===== src/Rolling/Regular.antt =====
-- The history stays one regular series inside its window, and a selection is its recent end.
use perpetuals_carry_strateg.Base.{
  ℕ, ◌-◌, ◌*◌, ◌≤◌, ◌<◌, Option, none, some, List, [], ◌∷◌, ◌++◌, ◌≡◌, refl, arith, ltb, ltb→ge,
  Bool-cases, inl, inr,
}
use perpetuals_carry_strateg.Base.Lists.{get_last?, All}
use perpetuals_carry_strateg.Carry.Decide.{hour_ms, jitter_ms}
use perpetuals_carry_strateg.Rolling.History.{day_ms, Row, RollingFundingModel, apart, drop_before}

module _ {F : Type 0} where
  -- A row one interval behind another of the same cadence, up to the jitter.
  pub record Follows (previous row : Row F) : Type 0 where
    pub later : previous.time < row.time
    pub same_hours : row.hours ≡ previous.hours
    pub spaced : apart (row.time - previous.time) (row.hours * hour_ms) ≤ jitter_ms

  abbrev pub IsSeries : List (Row F) → Type 0
  IsSeries [] = Unit {0}
  IsSeries (row ∷ []) = Unit {0}
  IsSeries (row ∷ next ∷ rows) = Follows row next × IsSeries (next ∷ rows)

  abbrev pub IsRowSane : Row F → Type 0
  IsRowSane row = (1 ≤ row.hours) × (row.hours ≤ 24)

  -- The newest row, and the window that the older rows are within.
  abbrev pub IsWithin : ℕ → Option (Row F) → List (Row F) → Type 0
  IsWithin span none rows = Unit {0}
  IsWithin span (some newest) rows = All (λ row. newest.time - span ≤ row.time) rows

  pub record IsRegular (m : RollingFundingModel F) : Type 0 where
    pub enough : 3 ≤ m.min_settlements
    pub series : IsSeries m.history
    pub sane : All IsRowSane m.history
    pub within : IsWithin (m.rolling_days * day_ms) (get_last? m.history) m.history

  pub IsSeries-tail : (row : Row F) (rows : List (Row F)) → IsSeries (row ∷ rows) → IsSeries rows
  IsSeries-tail row [] s = tt
  IsSeries-tail row (next ∷ rows) s = s.1

  pub get_last?-snoc : (rows : List (Row F)) (row : Row F) → get_last? (rows ++ row ∷ []) ≡ some row
  get_last?-snoc [] row = refl
  get_last?-snoc (x ∷ []) row = refl
  get_last?-snoc (x ∷ y ∷ rows) row = get_last?-snoc (y ∷ rows) row

  -- A row may come behind the newest, where there is one.
  abbrev pub FollowsLast : Option (Row F) → Row F → Type 0
  FollowsLast none row = Unit {0}
  FollowsLast (some previous) row = Follows previous row

  pub IsSeries-snoc :
      (rows : List (Row F)) (row : Row F)
      → IsSeries rows
      → FollowsLast (get_last? rows) row
      → IsSeries (rows ++ row ∷ [])
  IsSeries-snoc [] row s f = tt
  IsSeries-snoc (x ∷ []) row s f = (f, tt)
  IsSeries-snoc (x ∷ y ∷ rows) row s f = (s.0, IsSeries-snoc (y ∷ rows) row s.1 f)

  pub All-snoc :
      (P : Row F → Type 0) (rows : List (Row F)) (row : Row F)
      → All P rows
      → P row
      → All P (rows ++ row ∷ [])
  All-snoc P [] row a p = (p, tt)
  All-snoc P (x ∷ rows) row a p = (a.0, All-snoc P rows row a.1 p)

  pub drop_before-IsSeries :
      (cutoff : ℕ) (rows : List (Row F)) → IsSeries rows → IsSeries (drop_before cutoff rows)
  unfolding drop_before
  drop_before-IsSeries cutoff [] s = tt
  drop_before-IsSeries cutoff (row ∷ rows) s = elim (Bool-cases (ltb row.time cutoff)) [
    | inl old ↦ rw old (drop_before-IsSeries cutoff rows (IsSeries-tail row rows s))
    | inr new ↦ rw new s
  ]

  pub drop_before-All :
      (P : Row F → Type 0) (cutoff : ℕ) (rows : List (Row F))
      → All P rows
      → All P (drop_before cutoff rows)
  unfolding drop_before
  drop_before-All P cutoff [] a = tt
  drop_before-All P cutoff (row ∷ rows) a = elim (Bool-cases (ltb row.time cutoff)) [
    | inl old ↦ rw old (drop_before-All P cutoff rows a.1)
    | inr new ↦ rw new a
  ]

  -- In a series no row is before the first.
  pub first-le :
      (cutoff : ℕ) (row : Row F) (rows : List (Row F))
      → cutoff ≤ row.time
      → IsSeries (row ∷ rows)
      → All (λ r. cutoff ≤ r.time) (row ∷ rows)
  first-le cutoff row [] h s = (h, tt)
  first-le cutoff row (next ∷ rows) h (f, s) =
      let later = f.later in (h, first-le cutoff next rows (omega arith) s)

  pub drop_before-ge :
      (cutoff : ℕ) (rows : List (Row F))
      → IsSeries rows
      → All (λ r. cutoff ≤ r.time) (drop_before cutoff rows)
  unfolding drop_before
  drop_before-ge cutoff [] s = tt
  drop_before-ge cutoff (row ∷ rows) s = elim (Bool-cases (ltb row.time cutoff)) [
    | inl old ↦ rw old (drop_before-ge cutoff rows (IsSeries-tail row rows s))
    | inr new ↦ rw new (first-le cutoff row rows (ltb→ge _ _ new) s)
  ]

  -- The loop stops at the newest row at the latest.
  pub drop_before-last :
      (cutoff : ℕ) (rows : List (Row F)) (row : Row F)
      → cutoff ≤ row.time
      → get_last? (drop_before cutoff (rows ++ row ∷ [])) ≡ some row
  unfolding drop_before
  drop_before-last cutoff [] row h = ground arith
  drop_before-last cutoff (x ∷ rows) row h = elim (Bool-cases (ltb x.time cutoff)) [
    | inl old ↦ rw old (drop_before-last cutoff rows row h)
    | inr new ↦ rw new (get_last?-snoc (x ∷ rows) row)
  ]
