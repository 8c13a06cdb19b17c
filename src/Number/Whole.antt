-- ===== src/Number/Whole.antt =====
-- Integers over the native numbers, as a ring: the whole part of the numbers in the examples.
use mathlib.Core.Path.{subst}
use native.Mathlib.Nat.{mul-lt-mul_of_pos_left}
use perpetuals_carry_strateg.Base.{
  ℕ, ◌<◌, ◌≤◌, false, suc, ◌+◌, ◌-◌, ◌*◌, ◌/◌, ◌≡◌, ap, Bool, true, arith, ltb, leb, ◌==◌,
  if◌then◌else◌,
}

-- `negsuc n` is -(n + 1).
pub data ℤ : Type 0 where
  pos : ℕ → ℤ
  negsuc : ℕ → ℤ

abbrev pub pos_part : ℤ → ℕ
pos_part (pos n) = n
pos_part (negsuc n) = 0

abbrev pub neg_part : ℤ → ℕ
neg_part (pos n) = 0
neg_part (negsuc n) = suc n

abbrev sub_ℕ : ℕ → ℕ → ℤ
sub_ℕ a b = if leb b a then pos (a - b) else negsuc (b - a - 1)

infixl 65 ◌+ℤ◌
infixl 70 ◌*ℤ◌ ◌/ℤ◌
unfoldable pub ◌+ℤ◌ : ℤ → ℤ → ℤ
a +ℤ b = sub_ℕ (pos_part a + pos_part b) (neg_part a + neg_part b)

unfoldable pub neg_ℤ : ℤ → ℤ
neg_ℤ a = sub_ℕ (neg_part a) (pos_part a)

unfoldable pub ◌*ℤ◌ : ℤ → ℤ → ℤ
a *ℤ b =
    sub_ℕ (pos_part a * pos_part b + neg_part a * neg_part b)
      (pos_part a * neg_part b + neg_part a * pos_part b)

-- The quotient, rounded towards zero.
unfoldable pub ◌/ℤ◌ : ℤ → ℤ → ℤ
a /ℤ b =
    sub_ℕ (pos_part a / pos_part b + neg_part a / neg_part b)
      (pos_part a / neg_part b + neg_part a / pos_part b)

abbrev pub ltb_ℤ : ℤ → ℤ → Bool
ltb_ℤ a b = ltb (pos_part a + neg_part b) (pos_part b + neg_part a)

abbrev pub eqb_ℤ : ℤ → ℤ → Bool
eqb_ℤ a b = pos_part a + neg_part b == pos_part b + neg_part a

+ℤ_parts :
    (a b : ℤ)
    → pos_part (a +ℤ b) + neg_part a + neg_part b ≡ neg_part (a +ℤ b) + pos_part a + pos_part b
unfolding ◌+ℤ◌
+ℤ_parts a b = ground arith

neg_ℤ_parts : (a : ℤ) → pos_part (neg_ℤ a) + pos_part a ≡ neg_part (neg_ℤ a) + neg_part a
unfolding neg_ℤ
neg_ℤ_parts a = ground arith

sub_ℕ_parts : (m n : ℕ) → pos_part (sub_ℕ m n) + n ≡ neg_part (sub_ℕ m n) + m
sub_ℕ_parts m n = ground arith

*ℤ_parts :
    (a b : ℤ)
    → pos_part (a *ℤ b) + (pos_part a * neg_part b + neg_part a * pos_part b)
      ≡ neg_part (a *ℤ b) + (pos_part a * pos_part b + neg_part a * neg_part b)
unfolding ◌*ℤ◌
*ℤ_parts a b = sub_ℕ_parts _ _

pub eq_of_parts : (a b : ℤ) → pos_part a + neg_part b ≡ pos_part b + neg_part a → a ≡ b
eq_of_parts a b h = ground arith

pub +ℤ_comm : (a b : ℤ) → a +ℤ b ≡ b +ℤ a
+ℤ_comm a b = omega (arith, +ℤ_parts, eq_of_parts)

pub +ℤ_assoc : (a b c : ℤ) → a +ℤ b +ℤ c ≡ a +ℤ (b +ℤ c)
+ℤ_assoc a b c = omega (arith, +ℤ_parts, eq_of_parts)

pub +ℤ-zero : (a : ℤ) → a +ℤ pos 0 ≡ a
+ℤ-zero a = omega (arith, +ℤ_parts, eq_of_parts)

pub +ℤ-neg_ℤ : (a : ℤ) → a +ℤ neg_ℤ a ≡ pos 0
+ℤ-neg_ℤ a = omega (arith, +ℤ_parts, neg_ℤ_parts, eq_of_parts)

pub *ℤ_comm : (a b : ℤ) → a *ℤ b ≡ b *ℤ a
*ℤ_comm a b = eq_of_parts _ _ (omega (arith, *ℤ_parts a b, *ℤ_parts b a))

pub *ℤ-+ℤ : (a b c : ℤ) → a *ℤ (b +ℤ c) ≡ a *ℤ b +ℤ a *ℤ c
*ℤ-+ℤ a b c = eq_of_parts _ _ (
    omega (
      arith,
      *ℤ_parts a (b +ℤ c),
      *ℤ_parts a b,
      *ℤ_parts a c,
      +ℤ_parts (a *ℤ b) (a *ℤ c),
      ap (λ (t : ℕ). pos_part a * t) (+ℤ_parts b c),
      ap (λ (t : ℕ). neg_part a * t) (+ℤ_parts b c),
    ))

pub +ℤ_interchange : (a b c d : ℤ) → (a +ℤ b) +ℤ (c +ℤ d) ≡ (a +ℤ c) +ℤ (b +ℤ d)
+ℤ_interchange a b c d = omega (arith, +ℤ_parts, eq_of_parts)

pub eqb_ℤ→eq : (a b : ℤ) → eqb_ℤ a b ≡ true → a ≡ b
eqb_ℤ→eq a b h = ground arith

-- A positive factor keeps the order, strictly.
pub *ℤ-lt : (w a b : ℤ) → ltb_ℤ (pos 0) w ≡ true → ltb_ℤ a b ≡ true → ltb_ℤ (w *ℤ a) (w *ℤ b) ≡ true
*ℤ-lt (negsuc m) a b h k = ground arith
*ℤ-lt (pos m) a b h k =
    let positive : 0 < m = ground arith in
    let less : pos_part a + neg_part b < pos_part b + neg_part a = ground arith in
    let scaled = mul-lt-mul_of_pos_left less positive in
    let below : pos_part (pos m *ℤ a) + neg_part (pos m *ℤ b)
        < pos_part (pos m *ℤ b) + neg_part (pos m *ℤ a) =
      omega (arith, scaled, *ℤ_parts (pos m) a, *ℤ_parts (pos m) b) in
    ground (arith, below)

pub zero-*ℤ : (a : ℤ) → pos 0 *ℤ a ≡ pos 0
zero-*ℤ a = eq_of_parts _ _ (omega (arith, *ℤ_parts (pos 0) a))

-- Equal parts of a sum keep the order.
pub +ℤ-lt_left : (c a b : ℤ) → ltb_ℤ a b ≡ true → ltb_ℤ (c +ℤ b) (c +ℤ a) ≡ false
+ℤ-lt_left c a b h =
    let less : pos_part a + neg_part b < pos_part b + neg_part a = ground arith in
    let kept : pos_part (c +ℤ a) + neg_part (c +ℤ b) ≤ pos_part (c +ℤ b) + neg_part (c +ℤ a) =
      omega (arith, less, +ℤ_parts c a, +ℤ_parts c b) in
    ground (arith, kept)

pub +ℤ-lt_right : (a b c : ℤ) → ltb_ℤ a b ≡ true → ltb_ℤ (b +ℤ c) (a +ℤ c) ≡ false
+ℤ-lt_right a b c h =
    subst (λ x. ltb_ℤ x (a +ℤ c) ≡ false) (+ℤ_comm c b)
      (subst (λ x. ltb_ℤ (c +ℤ b) x ≡ false) (+ℤ_comm c a) (+ℤ-lt_left c a b h))
