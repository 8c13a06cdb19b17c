-- ===== src/Number/Points.antt =====
-- A number type for examples: a whole part and a part in points, of which a product keeps the
-- whole and the first order. Sums and products are exact, and a point lies between 0 and 1.
use mathlib.Core.Path.{ap₂, subst}
use perpetuals_carry_strateg.Base.{
  ℕ, zero, suc, ◌*◌, Bool, true, not, ◌&&◌, ◌||◌, ◌≡◌, refl, ◌∙◌, and_true, arith, leb, false, ap,
  sym, Bool-cases, inl, inr, if◌then◌else◌,
}
use perpetuals_carry_strateg.Number.{Number}
use perpetuals_carry_strateg.Number.Laws.{IsExact, IsOrdered}
use perpetuals_carry_strateg.Number.Whole.{
  ℤ, pos, pos_part, neg_part, ◌+ℤ◌, neg_ℤ, ◌*ℤ◌, ◌/ℤ◌, ltb_ℤ, eqb_ℤ, +ℤ_comm, +ℤ_assoc, +ℤ-zero,
  +ℤ-neg_ℤ, *ℤ_comm, *ℤ-+ℤ, eqb_ℤ→eq, +ℤ_interchange, *ℤ-lt, zero-*ℤ, +ℤ-lt_left, +ℤ-lt_right,
}

pub record Points : Type 0 where
  pub whole : ℤ
  pub points : ℤ

abbrev pub whole_number : ℕ → Points
whole_number n = record { whole = pos n; points = pos 0 }

unfoldable pub plus : Points → Points → Points
unfolding ◌+ℤ◌
plus a b = record { whole = a.whole +ℤ b.whole; points = a.points +ℤ b.points }

unfoldable pub opposite : Points → Points
unfolding neg_ℤ
opposite a = record { whole = neg_ℤ a.whole; points = neg_ℤ a.points }

unfoldable pub times : Points → Points → Points
unfolding ◌+ℤ◌ ◌*ℤ◌
times a b = record {
  whole = a.whole *ℤ b.whole;
  points = a.whole *ℤ b.points +ℤ a.points *ℤ b.whole;
}

unfoldable pub over : Points → Points → Points
unfolding ◌/ℤ◌
over a b = record { whole = a.whole /ℤ b.whole; points = a.points /ℤ b.whole }

-- The largest number up to `k` whose square is at most `n`.
unfoldable pub root_below : ℕ → ℕ → ℕ
root_below zero n = 0
root_below (suc k) n = if leb (suc k * suc k) n then suc k else root_below k n

unfoldable pub root : Points → Points
unfolding root_below
root a = let n = pos_part a.whole in whole_number (root_below n n)

abbrev below : Points → Points → Bool
below a b = ltb_ℤ a.whole b.whole || (eqb_ℤ a.whole b.whole && ltb_ℤ a.points b.points)

abbrev pub equal : Points → Points → Bool
equal a b = eqb_ℤ a.whole b.whole && eqb_ℤ a.points b.points

instance abbrev pub points_number : Number Points
points_number = record {
  nought = whole_number 0;
  one = whole_number 1;
  of_ℕ = whole_number;
  add = plus;
  sub = λ a b. plus a (opposite b);
  mul = times;
  div = over;
  neg = opposite;
  sqrt = root;
  lt = below;
  le = λ a b. not (below b a);
  eq = equal;
  is_finite = λ a. true;
}

extensional : (a b : Points) → a.whole ≡ b.whole → a.points ≡ b.points → a ≡ b
extensional a b h k = λ i. record { whole = h i; points = k i }

equal→eq : (a b : Points) → equal a b ≡ true → a ≡ b
equal→eq a b h =
    let (w, p) = and_true (eqb_ℤ a.whole b.whole) _ h in
    extensional a b (eqb_ℤ→eq _ _ w) (eqb_ℤ→eq _ _ p)

equal_refl : (a : Points) → equal a a ≡ true
equal_refl a = ground arith

pub Points-IsExact : IsExact Points
unfolding plus opposite times
Points-IsExact = record {
  add_comm = λ a b. extensional _ _ (+ℤ_comm _ _) (+ℤ_comm _ _);
  add_assoc = λ a b c. extensional _ _ (+ℤ_assoc _ _ _) (+ℤ_assoc _ _ _);
  add-nought = λ a. extensional _ _ (+ℤ-zero _) (+ℤ-zero _);
  add-negate = λ a. extensional _ _ (+ℤ-neg_ℤ _) (+ℤ-neg_ℤ _);
  sub-eq-add = λ a b. refl;
  mul_comm = λ a b.
      extensional _ _ (*ℤ_comm a.whole b.whole)
        (ap₂ ◌+ℤ◌ (*ℤ_comm a.whole b.points) (*ℤ_comm a.points b.whole) ∙ +ℤ_comm _ _);
  mul-add = λ a b c. extensional _ _ (*ℤ-+ℤ a.whole b.whole c.whole) (
      ap₂ ◌+ℤ◌ (*ℤ-+ℤ a.whole b.points c.points) (*ℤ-+ℤ a.points b.whole c.whole)
      ∙ +ℤ_interchange _ _ _ _);
  eq_iff = λ a b. (equal→eq a b, λ e. subst (λ c. equal a c ≡ true) e (equal_refl a));
}

pub Points-IsOrdered : IsOrdered Points
Points-IsOrdered = record {
  le-not-lt = λ a b _ _. refl;
  lt_irrefl = λ a. ground arith;
  lt_trans = λ a b c h k. ground arith;
  le_trans = λ a b c h k. ground arith;
  lt_of_lt_le = λ a b c h k. ground arith;
  lt_of_le_lt = λ a b c h k. ground arith;
  le_of_lt = λ a b h. ground arith;
}

-- The order, by its parts.
le_of_whole : (a b : Points) → ltb_ℤ a.whole b.whole ≡ true → not (below b a) ≡ true
le_of_whole a b h = ground arith

le_of_points :
    (a b : Points) → a.whole ≡ b.whole → ltb_ℤ b.points a.points ≡ false → not (below b a) ≡ true
le_of_points a b same h =
    let parts = ap pos_part same in let parts' = ap neg_part same in ground (arith, parts, parts')

data Compared (a b : Points) : Type 0 where
  larger : ltb_ℤ a.whole b.whole ≡ true → Compared a b
  finer : a.whole ≡ b.whole → ltb_ℤ a.points b.points ≡ true → Compared a b
  same : a ≡ b → Compared a b

compared : (a b : Points) → not (below b a) ≡ true → Compared a b
compared a b h = elim (Bool-cases (ltb_ℤ a.whole b.whole)) [
  | inl lt ↦ larger lt
  | inr ge ↦
      let whole : eqb_ℤ a.whole b.whole ≡ true = ground arith in
      elim (Bool-cases (ltb_ℤ a.points b.points)) [
        | inl lt ↦ finer (eqb_ℤ→eq _ _ whole) lt
        | inr le ↦
            let points : eqb_ℤ a.points b.points ≡ true = ground arith in
            same (extensional a b (eqb_ℤ→eq _ _ whole) (eqb_ℤ→eq _ _ points))
      ]
]

-- A positive factor keeps the order.
times_large :
    (step a b : Points)
    → ltb_ℤ (pos 0) step.whole ≡ true
    → Compared a b
    → not (below (times step b) (times step a)) ≡ true
unfolding times
times_large step a b positive (same e) =
    subst (λ c. not (below (times step c) (times step a)) ≡ true) e
      (ap not (Points-IsOrdered.lt_irrefl (times step a)))
times_large step a b positive (larger lt) =
    le_of_whole (times step a) (times step b) (*ℤ-lt step.whole a.whole b.whole positive lt)
times_large step a b positive (finer e lt) =
    le_of_points (times step a) (times step b) (ap (λ w. step.whole *ℤ w) e) (
      subst
        (λ w.
          ltb_ℤ (step.whole *ℤ b.points +ℤ step.points *ℤ w)
            (step.whole *ℤ a.points +ℤ step.points *ℤ a.whole)
          ≡ false)
        e (+ℤ-lt_right _ _ _ (*ℤ-lt step.whole a.points b.points positive lt)))

-- Of a factor of points only the whole part of the other is left.
abbrev scaled : ℤ → ℤ → Points
scaled points w = record { whole = pos 0; points = pos 0 +ℤ points *ℤ w }

points_by :
    (points : ℤ) (a : Points)
    → times (record { whole = pos 0; points = points }) a ≡ scaled points a.whole
unfolding times
points_by points a =
    extensional _ _ (zero-*ℤ a.whole) (ap (λ z. z +ℤ points *ℤ a.whole) (zero-*ℤ a.points))

scaled_mono :
    (points : ℤ) (a b : Points)
    → ltb_ℤ (pos 0) points ≡ true
    → Compared a b
    → not (below (scaled points b.whole) (scaled points a.whole)) ≡ true
scaled_mono points a b positive (larger lt) =
    le_of_points (scaled points a.whole) (scaled points b.whole) (refl {a = pos 0}) (
      +ℤ-lt_left (pos 0) (points *ℤ a.whole) (points *ℤ b.whole)
        (*ℤ-lt points a.whole b.whole positive lt))
scaled_mono points a b positive (finer e lt) =
    subst (λ w. not (below (scaled points w) (scaled points a.whole)) ≡ true) e
      (ap not (Points-IsOrdered.lt_irrefl (scaled points a.whole)))
scaled_mono points a b positive (same e) =
    subst (λ w. not (below (scaled points w) (scaled points a.whole)) ≡ true) (ap (λ c. c.whole) e)
      (ap not (Points-IsOrdered.lt_irrefl (scaled points a.whole)))

pub times_mono :
    (step a b : Points)
    → below (whole_number 0) step ≡ true
    → not (below b a) ≡ true
    → not (below (times step b) (times step a)) ≡ true
times_mono step a b positive h = elim (Bool-cases (ltb_ℤ (pos 0) step.whole)) [
  | inl large ↦ times_large step a b large (compared a b h)
  | inr small ↦
      let nothing : eqb_ℤ (pos 0) step.whole ≡ true = ground arith in
      let fine : ltb_ℤ (pos 0) step.points ≡ true = ground arith in
      let split : record { whole = pos 0; points = step.points } ≡ step =
        extensional _ _ (eqb_ℤ→eq _ _ nothing) refl in
      subst (λ s. not (below (times s b) (times s a)) ≡ true) split
        (subst
          (λ x. not (below x (times (record { whole = pos 0; points = step.points }) a)) ≡ true)
          (sym (points_by step.points b))
          (subst (λ x. not (below (scaled step.points b.whole) x) ≡ true)
            (sym (points_by step.points a)) (scaled_mono step.points a b fine (compared a b h))))
]
