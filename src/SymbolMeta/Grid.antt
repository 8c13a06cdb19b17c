-- ===== src/SymbolMeta/Grid.antt =====
-- The values that `decimal_gcd` is given, in units of its places, and the grid.
use native.Mathlib.Nat.{
  mul_left_comm, mul-one, sub_self, div-add-mod, mul-suc, mul-zero, mul-le-mul,
}
use mathlib.Core.Path.{subst}
use perpetuals_carry_strateg.Base.{
  ℕ, zero, suc, ◌+◌, ◌-◌, ◌*◌, ◌/◌, ◌%◌, ◌≤◌, true, List, [], ◌∷◌, map, ◌≡◌, sym, ap, ◌∙◌, arith,
  refl, false, ◌<◌, ◌||◌, or_false, ltb, ◌==◌, ==→eq, ltb→ge, inl, inr, Bool-cases,
}
use perpetuals_carry_strateg.Base.Lists.{All, any}
use perpetuals_carry_strateg.Base.Result.{ok, Error, >>=-eq-ok, raise_if-eq-ok, ok_injective}
use perpetuals_carry_strateg.SymbolMeta.{
  Exponent, Exact, tens, decimal_places, scale_of, as_scaled_int, as_scaled_ints, reduce_gcd,
  context_digits, excess_from, rounded_to, in_context, most_places, plain_notation, grid_of,
  is_nonpositive, decimal_gcd,
}
use perpetuals_carry_strateg.SymbolMeta.Divisors.{Divides, reduce_gcd-IsGreatestOf}

-- A value in units of a number of decimal places, which has at least its own.
abbrev pub units : ℕ → Exact → ℕ
units places value = value.digits * scale_of value.exponent places

abbrev pub IsFine : ℕ → Exact → Type 0
IsFine places value = decimal_places value.exponent ≤ places

All-map :
    (P : ℕ → Type 0) (f : Exact → ℕ) (vs : List Exact) → All P (map f vs) → All (λ v. P (f v)) vs
All-map P f [] h = tt
All-map P f (v ∷ vs) (p, ps) = (p, All-map P f vs ps)

map-All :
    (P : ℕ → Type 0) (f : Exact → ℕ) (vs : List Exact) → All (λ v. P (f v)) vs → All P (map f vs)
map-All P f [] h = tt
map-All P f (v ∷ vs) (p, ps) = (p, map-All P f vs ps)

as_scaled_ints-eq :
    (values : List Exact) (places : ℕ) {scaled : List ℕ}
    → as_scaled_ints values places ≡ ok scaled
    → (map (units places) values ≡ scaled) × All (IsFine places) values
unfolding as_scaled_ints as_scaled_int
as_scaled_ints-eq [] places h = (ok_injective h, tt)
as_scaled_ints-eq (value ∷ values) places h =
    let (first, f, h₁) = >>=-eq-ok (as_scaled_int value places) _ h in
    let (rest, r, h₂) = >>=-eq-ok (as_scaled_ints values places) _ h₁ in
    let (fits, f₁) =
      raise_if-eq-ok (ltb places (decimal_places value.exponent)) Error.symbol_meta_error _ f in
    let (same, fine) = as_scaled_ints-eq values places r in
    ((λ i. ok_injective f₁ i ∷ same i) ∙ ok_injective h₂, (ltb→ge places _ fits, fine))

ten_times : (digits n m : ℕ) → m ≡ suc n → digits * tens m ≡ 10 * (digits * tens n)
unfolding tens
ten_times digits n m h = ap (λ k. digits * tens k) h ∙ mul_left_comm digits 10 (tens n)

-- A place more is worth ten.
raised_by :
    (places : ℕ) (value : Exact)
    → IsFine places value
    → units (suc places) value ≡ 10 * units places value
raised_by places value h = go value.exponent h
  where
    go :
        (e : Exponent)
        → decimal_places e ≤ places
        → value.digits * scale_of e (suc places) ≡ 10 * (value.digits * scale_of e places)
    go (Exponent.raised n) h =
        unfold scale_of in ten_times value.digits (n + places) (n + suc places) (omega arith)
    go (Exponent.lowered n) h =
        unfold scale_of in ten_times value.digits (places - n) (suc places - n) (omega arith)

tenth : (digits : ℕ) → (digits % 10 == 0) ≡ true → 10 * (digits / 10) ≡ digits
tenth digits h =
    let whole = div-add-mod digits 10 in
    let none_left = ==→eq (digits % 10) 0 h in omega (arith, whole, none_left)

-- Stripping zeros does not change the value.
plain_notation-units :
    (places digits : ℕ)
    → IsFine places (plain_notation places digits)
      × (units places (plain_notation places digits) ≡ digits)
unfolding plain_notation scale_of tens
plain_notation-units zero digits = (omega arith, mul-one digits)
plain_notation-units (suc places) digits = elim (Bool-cases (digits % 10 == 0)) [
  | inl strips ↦
      let (fine, same) = plain_notation-units places (digits / 10) in
      rw (strips, plain_notation)
        (
          omega (arith, fine),
          raised_by places (plain_notation places (digits / 10)) fine
              ∙ ap (λ z. 10 * z) same
              ∙ tenth digits strips,
        )
  | inr keeps ↦
      rw (keeps, plain_notation)
        (omega arith, ap (λ k. digits * tens k) (sub_self (suc places)) ∙ mul-one digits)
]

tens-positive : (n : ℕ) → 1 ≤ tens n
unfolding tens
tens-positive zero = omega arith
tens-positive (suc n) = omega (arith, tens-positive n)

excess_none : (n : ℕ) → n < tens context_digits → excess_from n n ≡ 0
unfolding excess_from
excess_none zero h = refl
excess_none (suc n) h =
    let few : ltb (suc n) (tens context_digits) ≡ true = ground (arith, h) in
    rw (few, excess_from) refl

rounded_to-one : (n : ℕ) → rounded_to 1 n ≡ n
unfolding rounded_to
rounded_to-one n = ground arith

-- A number of no more digits than the context is not rounded.
in_context_lem : (n : ℕ) → n < tens context_digits → in_context n ≡ n
unfolding in_context
in_context_lem n h = rw (excess_none n h) (unfold tens in rounded_to-one n)

-- A whole multiple that is not zero is not smaller.
Divides-le : (g n : ℕ) → 1 ≤ n → Divides g n → g ≤ n
Divides-le g n h (zero, p) = omega (arith, p, mul-zero g)
Divides-le g n h (suc k, p) = omega (arith, p, mul-suc g k)

scale_of-positive : (places : ℕ) (e : Exponent) → 1 ≤ scale_of e places
unfolding scale_of
scale_of-positive places (Exponent.raised n) = tens-positive (n + places)
scale_of-positive places (Exponent.lowered n) = tens-positive (places - n)

units-positive :
    (places : ℕ) (value : Exact) → is_nonpositive value ≡ false → 1 ≤ units places value
units-positive places value h =
    let (_, some_digits) = or_false value.is_negative _ h in
    let digits : 1 ≤ value.digits = ground arith in
    mul-le-mul digits (scale_of-positive places value.exponent)

-- What divides all values is below the context, if some value is.
below_context :
    (places g : ℕ) (values : List Exact)
    → any is_nonpositive values ≡ false
    → any (λ value. ltb (units places value) (tens context_digits)) values ≡ true
    → All (λ value. Divides g (units places value)) values
    → g < tens context_digits
below_context places g [] h k d = cc
below_context places g (value ∷ values) h k (d, ds) =
    let (positive, rest) = or_false (is_nonpositive value) _ h in
    elim (Bool-cases (ltb (units places value) (tens context_digits))) [
      | inl few ↦
          let most = Divides-le g (units places value) (units-positive places value positive) d in
          let below : units places value < tens context_digits = ground (arith, few) in
          omega (arith, most, below)
      | inr many ↦ below_context places g values rest (rw (many, ◌||◌) at k) ds
    ]

-- Every value is a whole multiple of the grid, which is a multiple of every number that all are
-- whole multiples of; all in units of the places of the finest value.
pub record IsGrid (values : List Exact) (grid : Exact) : Type 0 where
  pub places : ℕ
  pub values_fine : All (IsFine places) values
  pub grid_fine : IsFine places grid
  pub multiples : All (λ value. Divides (units places grid) (units places value)) values
  pub coarsest :
      (h : ℕ) → All (λ value. Divides h (units places value)) values → Divides h (units places grid)

grid_of-IsGrid :
    (values : List Exact) (places : ℕ) {grid : Exact}
    → any is_nonpositive values ≡ false
    → any (λ value. ltb (units places value) (tens context_digits)) values ≡ true
    → All (IsFine places) values
    → grid_of (map (units places) values) places ≡ ok grid
    → IsGrid values grid
unfolding grid_of
grid_of-IsGrid [] places positive few fine h = cc
grid_of-IsGrid (value ∷ values) places positive few fine h =
    let common = reduce_gcd (units places value) (map (units places) values) in
    let greatest = reduce_gcd-IsGreatestOf (units places value) (map (units places) values) in
    let multiples : All (λ v. Divides common (units places v)) (value ∷ values) =
      (greatest.of_first, All-map (Divides common) (units places) values greatest.of_rest) in
    let kept =
      in_context_lem common (below_context places common (value ∷ values) positive few multiples) in
    let (grid_fine, written) = plain_notation-units places (in_context common) in
    let same = written ∙ kept in
    subst (IsGrid (value ∷ values)) (ok_injective h) (record {
      places = places;
      values_fine = fine;
      grid_fine = grid_fine;
      multiples =
          subst (λ g. All (λ v. Divides g (units places v)) (value ∷ values)) (sym same) multiples;
      coarsest = λ h all.
          subst (Divides h) (sym same)
            (greatest.greatest h all.0 (map-All (Divides h) (units places) values all.1));
    })

-- Where some value has at most 28 digits down to the finest decimal place among the values, the grid
-- that `decimal_gcd` derives is the coarsest one: every value is a whole multiple of it, and it is
-- itself a multiple of whatever all values are whole multiples of, in units of that place.
pub decimal_gcd-IsGrid :
    (values : List Exact) {grid : Exact}
    → any (λ value. ltb (units (most_places values) value) (tens context_digits)) values ≡ true
    → decimal_gcd values ≡ ok grid
    → IsGrid values grid
unfolding decimal_gcd
decimal_gcd-IsGrid values {grid} few h =
    let (positive, h₁) = raise_if-eq-ok (any is_nonpositive values) Error.symbol_meta_error _ h in
    let (scaled, s, h₂) = >>=-eq-ok (as_scaled_ints values (most_places values)) _ h₁ in
    let (same, fine) = as_scaled_ints-eq values (most_places values) s in
    grid_of-IsGrid values (most_places values) positive few fine
      (subst (λ x. grid_of x (most_places values) ≡ ok grid) (sym same) h₂)
