-- ===== src/Calendar/Folds.antt =====
-- The months of the study: `fold_start`, `month_bounds` and `months_between`.
use mathlib.Core.Path.{subst}
use perpetuals_carry_strateg.Base.{
  ℕ, zero, suc, ◌+◌, ◌-◌, ◌*◌, ◌/◌, ◌%◌, ◌≤◌, ◌<◌, List, [], ◌∷◌, ◌≡◌, refl, sym, ap, ◌∙◌, leb, ltb,
  arith, ◌==◌, ==→eq, ◌&&◌, Bool-cases, inl, inr,
}
use perpetuals_carry_strateg.Rolling.History.{day_ms}
use perpetuals_carry_strateg.Calendar.{
  Date, month_length, month_start, month_of, date_of, day_of, month_index, utc_ms, fold_start,
  next_month, months_from, months_between, month_bounds,
}
use perpetuals_carry_strateg.Calendar.Months.{
  month_length_range, Contains, month_of-Contains, month_start-suc, month_start_mono,
  month_start_after, Contains-unique, IsDate, day_of-Contains,
}

-- The first date of a month.
abbrev pub first : ℕ → Date
first k = record { year = 1970 + k / 12; month = k % 12 + 1; day = 1 }

month_index-first : (k : ℕ) → month_index (first k) ≡ k
month_index-first k = omega arith

day_of-first : (k : ℕ) → day_of (first k) ≡ month_start k
unfolding day_of
day_of-first k = rw (month_index-first k) (omega arith)

abbrev month_at : ℕ → ℕ
month_at time_ms = (month_of (time_ms / day_ms)).0

fold_start-month : (t : ℕ) → fold_start t ≡ month_start (month_at t) * day_ms
unfolding fold_start utc_ms date_of
fold_start-month t = ap (λ d. d * day_ms) (day_of-first (month_at t))

-- A time lies in the month that a fold starts.
time-in-month :
    (t : ℕ)
    → (month_start (month_at t) * day_ms ≤ t)
      × (t < (month_start (month_at t) + month_length (month_at t)) * day_ms)
time-in-month t = let c = month_of-Contains (t / day_ms) in omega (arith, c.total, c.within)

same_month :
    (s t : ℕ)
    → month_start (month_at s) * day_ms ≤ t
    → t < (month_start (month_at s) + month_length (month_at s)) * day_ms
    → month_at t ≡ month_at s
same_month s t low high =
    let into = t / day_ms - month_start (month_at s) in
    let c : Contains (t / day_ms) (month_at s) into = record {
      total = omega arith;
      within = omega arith;
    } in
    (Contains-unique (month_of-Contains (t / day_ms)) c).0

fold_start_idem : (t : ℕ) → fold_start (fold_start t) ≡ fold_start t
fold_start_idem t =
    let f = month_start (month_at t) * day_ms in
    let (least, _) = month_length_range (month_at t) in
    let same : month_at f ≡ month_at t = same_month t f (omega arith) (omega arith) in
    let inner : fold_start f ≡ f = fold_start-month f ∙ ap (λ m. month_start m * day_ms) same in
    ap fold_start (fold_start-month t) ∙ inner ∙ sym (fold_start-month t)

fold_start_mono : (s t : ℕ) → s ≤ t → fold_start s ≤ fold_start t
fold_start_mono s t h =
    let (low, high) = time-in-month s in
    let (low', high') = time-in-month t in
    rw (fold_start-month s, fold_start-month t)
      (elim (Bool-cases (ltb (month_at t) (month_at s))) [
        | inl lt ↦
            let before : month_at t < month_at s = ground arith in
            omega (arith, month_start_after (month_at t) (month_at s) before)
        | inr ge ↦
            let split : (month_at t - month_at s) + month_at s ≡ month_at t = ground arith in
            let order =
              subst (λ k. month_start (month_at s) ≤ month_start k) split
                (month_start_mono (month_at s) (month_at t - month_at s)) in
            omega (arith, order)
      ])

fold_start-inj : (s t : ℕ) → fold_start s ≡ fold_start t → month_at s ≡ month_at t
fold_start-inj s t h =
    let (low, high) = time-in-month t in
    let (least, _) = month_length_range (month_at s) in
    let start = sym (fold_start-month s) ∙ h ∙ fold_start-month t in
    let from : month_at (month_start (month_at t) * day_ms) ≡ month_at s =
      same_month s (month_start (month_at t) * day_ms) (omega (arith, start))
        (omega (arith, start)) in
    let (least', _) = month_length_range (month_at t) in
    let at_t : month_at (month_start (month_at t) * day_ms) ≡ month_at t =
      same_month t (month_start (month_at t) * day_ms) (omega arith) (omega arith) in
    sym from ∙ at_t

fold_start-same_month :
    (s t : ℕ)
    → (fold_start s == fold_start t)
      ≡ (date_of (s / day_ms)).year == (date_of (t / day_ms)).year
        && (date_of (s / day_ms)).month == (date_of (t / day_ms)).month
unfolding date_of
fold_start-same_month s t =
    let one_way = fold_start-inj s t in
    let back : month_at s ≡ month_at t → fold_start s ≡ fold_start t =
      λ h. fold_start-month s ∙ ap (λ m. month_start m * day_ms) h ∙ sym (fold_start-month t) in
    elim (Bool-cases (month_at s == month_at t)) [
      | inl same ↦ let k = ==→eq _ _ same in let j = back k in ground (arith, k, j)
      | inr other ↦ ground (arith, one_way)
    ]

-- Two times are of one fold exactly where their dates have the same year and month; a fold starts
-- at or before its times and less than 31 days before them; its start is its own fold; a later time
-- is not in an earlier fold.
pub fold_start_lem :
    (s t : ℕ)
    → s ≤ t
    → (fold_start t ≤ t)
      × (t < fold_start t + 31 * day_ms)
      × (fold_start (fold_start t) ≡ fold_start t)
      × (fold_start s ≤ fold_start t)
      × ((fold_start s == fold_start t)
          ≡ (date_of (s / day_ms)).year == (date_of (t / day_ms)).year
            && (date_of (s / day_ms)).month == (date_of (t / day_ms)).month)
fold_start_lem s t h =
    let (low, high) = time-in-month t in
    let (_, most) = month_length_range (month_at t) in
    (
      omega (arith, fold_start-month t),
      omega (arith, fold_start-month t),
      fold_start_idem t,
      fold_start_mono s t h,
      fold_start-same_month s t,
    )

-- `fold_start` and `month_bounds` agree: a time lies within the bounds of the month of its date, and
-- its fold starts at the first of them.
pub fold_start-month_bounds :
    (t : ℕ)
    → let bounds = month_bounds (date_of (t / day_ms)) in
      (fold_start t ≡ bounds.0) × (bounds.0 ≤ t) × (t < bounds.1)
unfolding month_bounds fold_start date_of month_length
fold_start-month_bounds t =
    let (low, high) = time-in-month t in
    (refl, omega (arith, fold_start-month t), omega (arith, fold_start-month t))

next_month-first : (k : ℕ) → next_month (first k) ≡ first (suc k)
unfolding next_month date_of day_of
next_month-first k =
    let (least, most) = month_length_range k in
    let day = month_start (month_index (first k)) + 27 + 4 in
    let start = ap month_start (month_index-first k) in
    let c : Contains day (suc k) (31 - month_length k) = record {
      total = omega (arith, start, month_start-suc k);
      within = omega (arith, month_length_range (suc k));
    } in
    ap first (Contains-unique (month_of-Contains day) c).0

-- The first dates of a number of months from one on.
abbrev pub firsts : ℕ → ℕ → List Date
firsts k zero = []
firsts k (suc n) = first k ∷ firsts (suc k) n

-- A first date is up to a date whose month is not earlier.
first-le :
    (k : ℕ) (end : Date)
    → IsDate end
    → leb (day_of (first k)) (day_of end) ≡ leb k (month_index end)
first-le k end w =
    let c = day_of-Contains end w in
    let reach = c.total in
    let inside = c.within in
    rw (day_of-first k) (elim (Bool-cases (leb k (month_index end))) [
      | inl le ↦
          let split : (month_index end - k) + k ≡ month_index end = ground arith in
          let order =
            subst (λ j. month_start k ≤ month_start j) split
              (month_start_mono k (month_index end - k)) in
          rw le (ground arith)
      | inr gt ↦
          let after : month_index end < k = ground arith in
          let order = month_start_after (month_index end) k after in rw gt (ground arith)
    ])

-- From a first date on, with fuel for the months that are left.
months_from-eq-firsts :
    (fuel k : ℕ) (end : Date)
    → IsDate end
    → suc (month_index end) ≤ fuel + k
    → months_from fuel (first k) end ≡ firsts k (suc (month_index end) - k)
unfolding months_from
months_from-eq-firsts zero k end w h =
    let none_left : suc (month_index end) - k ≡ 0 = omega arith in rw none_left refl
months_from-eq-firsts (suc fuel) k end w h = elim (Bool-cases (leb k (month_index end))) [
  | inl le ↦
      let more : suc (month_index end) - k ≡ suc (suc (month_index end) - suc k) = ground arith in
      rw (more, first-le k end w, le, months_from)
        (ap (λ rest. first k ∷ rest)
          (ap (λ c. months_from fuel c end) (next_month-first k)
            ∙ months_from-eq-firsts fuel (suc k) end w (omega arith)))
  | inr gt ↦
      let none_left : suc (month_index end) - k ≡ 0 = ground arith in
      rw (none_left, first-le k end w, gt, months_from) refl
]

month_index-le-day_of : (k : ℕ) → k ≤ month_start k
month_index-le-day_of zero = omega arith
month_index-le-day_of (suc k) =
    omega (arith, month_index-le-day_of k, month_start-suc k, month_length_range k)

-- `months_between` lists the first dates of all months from that of the start to that of the end,
-- in order and once each; there are none where the start's month is later.
pub months_between-eq-firsts :
    (start end : Date)
    → IsDate start
    → IsDate end
    → months_between start end
      ≡ firsts (month_index start) (suc (month_index end) - month_index start)
unfolding months_between
months_between-eq-firsts start end v w =
    let from = v.from_1970 in
    let (low, high) = v.month_in in
    let k = month_index start in
    let year : start.year ≡ 1970 + k / 12 = omega arith in
    let month : start.month ≡ k % 12 + 1 = omega arith in
    let begin : record start { day = 1 } ≡ first k =
      λ i. record { year = year i; month = month i; day = 1 } in
    let enough : suc (month_index end) ≤ suc (day_of end) + k =
      omega (arith, (day_of-Contains end w).total, month_index-le-day_of (month_index end)) in
    ap (λ c. months_from (suc (day_of end)) c end) begin
    ∙ months_from-eq-firsts (suc (day_of end)) k end w enough
