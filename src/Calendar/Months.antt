-- ===== src/Calendar/Months.antt =====
-- Days and dates: the month that contains a day, and the days into it.
use mathlib.Core.Path.{subst, ap₂}
use perpetuals_carry_strateg.Base.{
  ℕ, zero, suc, ◌+◌, ◌-◌, ◌/◌, ◌%◌, ◌≤◌, ◌<◌, ◌≡◌, refl, ap, ltb, arith, Bool-cases, inl, inr,
}
use perpetuals_carry_strateg.Calendar.{
  Date, days_in_month, month_length, month_start, month_from, month_of, date_of, day_of,
  month_index,
}

pub month_length_range : (k : ℕ) → (28 ≤ month_length k) × (month_length k ≤ 31)
unfolding month_length days_in_month
month_length_range k = ground arith

-- The month `m` contains the day `d`, with `r` days before it.
pub record Contains (d m r : ℕ) : Type 0 where
  pub total : month_start m + r ≡ d
  pub within : r < month_length m

pub month_start-suc : (k : ℕ) → month_start (suc k) ≡ month_start k + month_length k
unfolding month_start
month_start-suc k = refl

month_from-Contains :
    (fuel k d : ℕ)
    → d ≤ fuel
    → Contains (month_start k + d) (month_from fuel k d).0 (month_from fuel k d).1
unfolding month_from
month_from-Contains zero k d h = record {
  total = refl;
  within = omega (arith, month_length_range k);
}
month_from-Contains (suc fuel) k d h = elim (Bool-cases (ltb d (month_length k))) [
  | inl lt ↦ rw (lt, month_from) (record { total = refl; within = ground arith })
  | inr ge ↦
      let (least, _) = month_length_range k in
      let over : month_length k ≤ d = ground arith in
      let rest = month_from-Contains fuel (suc k) (d - month_length k) (omega arith) in
      let same : month_start (suc k) + (d - month_length k) ≡ month_start k + d =
        omega (arith, month_start-suc k) in
      rw (ge, month_from)
        (subst
          (λ x.
            Contains x (month_from fuel (suc k) (d - month_length k)).0
              (month_from fuel (suc k) (d - month_length k)).1)
          same rest)
]

pub month_of-Contains : (d : ℕ) → Contains d (month_of d).0 (month_of d).1
unfolding month_of month_start
month_of-Contains d =
    let start : month_start 0 + d ≡ d = omega arith in
    subst (λ x. Contains x (month_from d 0 d).0 (month_from d 0 d).1) start
      (month_from-Contains d 0 d (omega arith))

pub month_start_mono : (j n : ℕ) → month_start j ≤ month_start (n + j)
month_start_mono j zero = let same : 0 + j ≡ j = omega arith in rw same (omega arith)
month_start_mono j (suc n) =
    let same : suc n + j ≡ suc (n + j) = omega arith in
    rw same (omega (arith, month_start_mono j n, month_start-suc (n + j)))

-- A later month starts when the earlier one has ended.
pub month_start_after : (j k : ℕ) → j < k → month_start j + month_length j ≤ month_start k
month_start_after j k h =
    let same : (k - suc j) + suc j ≡ k = omega arith in
    let later =
      subst (λ x. month_start (suc j) ≤ month_start x) same
        (month_start_mono (suc j) (k - suc j)) in
    omega (arith, later, month_start-suc j)

-- One month contains a day.
pub Contains-unique : {d m r m' r' : ℕ} → Contains d m r → Contains d m' r' → (m ≡ m') × (r ≡ r')
Contains-unique {d} {m} {r} {m'} {r'} c c' = elim (Bool-cases (ltb m m')) [
  | inl lt ↦
      let before : m < m' = ground arith in
      omega (arith, c.total, c.within, c'.total, month_start_after m m' before)
  | inr ge ↦ elim (Bool-cases (ltb m' m)) [
    | inl lt' ↦
        let before : m' < m = ground arith in
        omega (arith, c'.total, c'.within, c.total, month_start_after m' m before)
    | inr ge' ↦
        let same : m ≡ m' = ground arith in
        let start : month_start m ≡ month_start m' = ap month_start same in
        (same, omega (arith, c.total, c'.total))
  ]
]

pub record IsDate (t : Date) : Type 0 where
  pub from_1970 : 1970 ≤ t.year
  pub month_in : (1 ≤ t.month) × (t.month ≤ 12)
  pub day_in : (1 ≤ t.day) × (t.day ≤ days_in_month t.year t.month)

pub month_index-date_of : (d : ℕ) → month_index (date_of d) ≡ (month_of d).0
unfolding date_of
month_index-date_of d = omega arith

pub month_length-month_index :
    (t : Date) → IsDate t → month_length (month_index t) ≡ days_in_month t.year t.month
unfolding month_length
month_length-month_index t v =
    let from = v.from_1970 in
    let (low, high) = v.month_in in
    let year : 1970 + month_index t / 12 ≡ t.year = omega arith in
    let month : month_index t % 12 + 1 ≡ t.month = omega arith in ap₂ days_in_month year month

day-date_of : (d : ℕ) → (date_of d).day ≡ (month_of d).1 + 1
unfolding date_of
day-date_of d = refl

-- The day of a day's date is the day.
pub day_of-date_of : (d : ℕ) → day_of (date_of d) ≡ d
unfolding day_of
day_of-date_of d =
    let c = month_of-Contains d in
    rw (month_index-date_of d) (omega (arith, c.total, day-date_of d))

pub date_of-IsDate : (d : ℕ) → IsDate (date_of d)
unfolding date_of month_length
date_of-IsDate d =
    let c = month_of-Contains d in
    record {
      from_1970 = omega arith;
      month_in = (omega arith, omega arith);
      day_in = (omega arith, omega (arith, c.within));
    }

pub day_of-Contains : (t : Date) → IsDate t → Contains (day_of t) (month_index t) (t.day - 1)
unfolding day_of
day_of-Contains t v =
    let (low, high) = v.day_in in
    record { total = refl; within = omega (arith, month_length-month_index t v) }
