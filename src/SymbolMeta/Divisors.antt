-- ===== src/SymbolMeta/Divisors.antt =====
-- Divisors, for `math.gcd` and its reduction in `decimal_gcd`.
use native.Mathlib.Nat.{mul_assoc, mul-add, mul-sub, mul-one, mul-zero, mod-lt, div-add-mod}
use perpetuals_carry_strateg.Base.{
  ℕ, zero, suc, ◌+◌, ◌-◌, ◌*◌, ◌/◌, ◌%◌, ◌<◌, List, [], ◌∷◌, ◌≡◌, sym, ap, ◌∙◌, arith, ◌==◌, ==→eq,
  inl, inr, Bool-cases,
}
use perpetuals_carry_strateg.Base.Lists.{All}
use perpetuals_carry_strateg.SymbolMeta.{gcd_from, gcd, reduce_gcd}

-- `n` is a whole multiple of `g`.
abbrev pub Divides : ℕ → ℕ → Type 0
Divides g n = (k : ℕ) × (n ≡ g * k)

Divides-mod : (g a b : ℕ) → Divides g a → Divides g b → Divides g (a % b)
Divides-mod g a b (x, p) (y, q) =
    let whole = div-add-mod a b in
    let part : b * (a / b) ≡ g * (y * (a / b)) = ap (λ z. z * (a / b)) q ∙ mul_assoc g y (a / b) in
    let rest = mul-sub g x (y * (a / b)) in (x - y * (a / b), omega (arith, whole, part, rest, p))

Divides-back : (g a b : ℕ) → Divides g b → Divides g (a % b) → Divides g a
Divides-back g a b (y, q) (r, p) =
    let whole = div-add-mod a b in
    let part : b * (a / b) ≡ g * (y * (a / b)) = ap (λ z. z * (a / b)) q ∙ mul_assoc g y (a / b) in
    let total = mul-add g (y * (a / b)) r in (y * (a / b) + r, omega (arith, whole, part, total, p))

-- A common divisor that every common divisor divides.
pub record IsGreatest (a b g : ℕ) : Type 0 where
  pub first : Divides g a
  pub second : Divides g b
  pub greatest : (h : ℕ) → Divides h a → Divides h b → Divides h g

gcd_from-IsGreatest : (fuel a b : ℕ) → b < fuel → IsGreatest a b (gcd_from fuel a b)
unfolding gcd_from
gcd_from-IsGreatest zero a b h = let none_below : ⊥ = omega arith in elim none_below [ ]
gcd_from-IsGreatest (suc fuel) a b h = elim (Bool-cases (b == 0)) [
  | inl none_left ↦
      let empty = ==→eq b 0 none_left in
      rw (none_left, gcd_from)
        (record {
          first = (1, sym (mul-one a));
          second = (0, empty ∙ sym (mul-zero a));
          greatest = λ h p q. p;
        })
  | inr some_left ↦
      let positive : 0 < b = ground arith in
      let less = mod-lt a positive in
      let step = gcd_from-IsGreatest fuel b (a % b) (omega arith) in
      rw (some_left, gcd_from)
        (record {
          first = Divides-back _ a b step.first step.second;
          second = step.first;
          greatest = λ h p q. step.greatest h q (Divides-mod h a b p q);
        })
]

pub gcd-IsGreatest : (a b : ℕ) → IsGreatest a b (gcd a b)
unfolding gcd
gcd-IsGreatest a b = gcd_from-IsGreatest (suc b) a b (omega arith)

Divides-trans : (g h n : ℕ) → Divides g h → Divides h n → Divides g n
Divides-trans g h n (x, p) (y, q) = (x * y, q ∙ ap (λ z. z * y) p ∙ mul_assoc g x y)

-- The same for a first number and a list of others.
pub record IsGreatestOf (first : ℕ) (rest : List ℕ) (g : ℕ) : Type 0 where
  pub of_first : Divides g first
  pub of_rest : All (Divides g) rest
  pub greatest : (h : ℕ) → Divides h first → All (Divides h) rest → Divides h g

pub reduce_gcd-IsGreatestOf :
    (first : ℕ) (rest : List ℕ) → IsGreatestOf first rest (reduce_gcd first rest)
unfolding reduce_gcd
reduce_gcd-IsGreatestOf first [] = record {
  of_first = (1, sym (mul-one first));
  of_rest = tt;
  greatest = λ h p q. p;
}
reduce_gcd-IsGreatestOf first (value ∷ rest) =
    let pair = gcd-IsGreatest first value in
    let all_rest = reduce_gcd-IsGreatestOf (gcd first value) rest in
    record {
      of_first = Divides-trans _ _ first all_rest.of_first pair.first;
      of_rest = (Divides-trans _ _ value all_rest.of_first pair.second, all_rest.of_rest);
      greatest = λ h p q. all_rest.greatest h (pair.greatest h p q.0) q.1;
    }
