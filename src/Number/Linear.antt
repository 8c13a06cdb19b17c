-- ===== src/Number/Linear.antt =====
-- Equations between sums of a `Number` with exact arithmetic, decided by counting: each side is
-- read as a `Sum` over a list of values, and both sides count every value equally often.
use mathlib.Core.Path.{ap₂}
use native.Mathlib.Nat.{zero-add, suc-add}
use perpetuals_carry_strateg.Base.{
  ℕ, zero, suc, ◌+◌, Bool, true, false, not, ◌&&◌, ◌==◌, ==→eq, and_true, List, [], ◌∷◌, ◌≡◌, refl,
  sym, ap, ◌∙◌,
}
use perpetuals_carry_strateg.Number.{Number, ◌⊕◌, ◌⊖◌, negate, nought}
use perpetuals_carry_strateg.Number.Laws.{IsExact}

pub data Sum : Type 0 where
  at : ℕ → Sum
  null : Sum
  plus minus : Sum → Sum → Sum
  opposite : Sum → Sum

abbrev add_counts : List ℕ → List ℕ → List ℕ
add_counts [] ns = ns
add_counts (m ∷ ms) [] = m ∷ ms
add_counts (m ∷ ms) (n ∷ ns) = (m + n) ∷ add_counts ms ns

abbrev unit_at : ℕ → List ℕ
unit_at zero = 1 ∷ []
unit_at (suc i) = 0 ∷ unit_at i

-- How often each value is added (`true`), and how often it is taken away (`false`).
abbrev counts : Bool → Sum → List ℕ
counts true (at i) = unit_at i
counts false (at i) = []
counts b null = []
counts b (plus s t) = add_counts (counts b s) (counts b t)
counts b (minus s t) = add_counts (counts b s) (counts (not b) t)
counts b (opposite s) = counts (not b) s

abbrev pub added : Sum → List ℕ
added = counts true

abbrev pub taken : Sum → List ℕ
taken = counts false

abbrev same_counts : List ℕ → List ℕ → Bool
same_counts [] [] = true
same_counts [] (n ∷ ns) = (n == 0) && same_counts [] ns
same_counts (m ∷ ms) [] = (m == 0) && same_counts ms []
same_counts (m ∷ ms) (n ∷ ns) = (m == n) && same_counts ms ns

module _ {N : Type 0} ⦃n : Number N⦄ where
  abbrev pub value_at : List N → ℕ → N
  value_at [] i = nought
  value_at (x ∷ xs) zero = x
  value_at (x ∷ xs) (suc i) = value_at xs i

  abbrev pub read : List N → Sum → N
  read xs (at i) = value_at xs i
  read xs null = nought
  read xs (plus s t) = read xs s ⊕ read xs t
  read xs (minus s t) = read xs s ⊖ read xs t
  read xs (opposite s) = negate (read xs s)

  times : ℕ → N → N
  times zero x = nought
  times (suc k) x = x ⊕ times k x

  total : List ℕ → List N → N
  total [] xs = nought
  total (k ∷ ks) [] = nought
  total (k ∷ ks) (x ∷ xs) = times k x ⊕ total ks xs

module _ {N : Type 0} ⦃n : Number N⦄ (exact : IsExact N) where
  open exact use {add_comm, add_assoc, add-nought, add-negate, sub-eq-add}

  pub nought-add : (a : N) → nought ⊕ a ≡ a
  nought-add a = add_comm nought a ∙ add-nought a

  interchange : (a b c d : N) → (a ⊕ b) ⊕ (c ⊕ d) ≡ (a ⊕ c) ⊕ (b ⊕ d)
  interchange a b c d =
      rw (add_assoc a b (c ⊕ d), ← add_assoc b c d, add_comm b c, add_assoc c b d)
        (sym (add_assoc a c (b ⊕ d)))

  negate-add_cancel : (a b : N) → negate a ⊕ (a ⊕ b) ≡ b
  negate-add_cancel a b =
      rw (← add_assoc (negate a) a b, add_comm (negate a) a, add-negate a) (nought-add b)

  pub add_right_cancel : (a b c : N) → a ⊕ c ≡ b ⊕ c → a ≡ b
  add_right_cancel a b c h = sym (strip a) ∙ ap (λ s. s ⊕ negate c) h ∙ strip b
    where
      strip : (x : N) → x ⊕ c ⊕ negate c ≡ x
      strip x = rw (add_assoc x c (negate c), add-negate c) (add-nought x)

  times-add : (j k : ℕ) (x : N) → times (j + k) x ≡ times j x ⊕ times k x
  unfolding times
  times-add zero k x = rw zero-add (sym (nought-add _))
  times-add (suc j) k x = rw suc-add (ap (λ s. x ⊕ s) (times-add j k x) ∙ sym (add_assoc _ _ _))

  total-add_counts :
      (js ks : List ℕ) (xs : List N) → total (add_counts js ks) xs ≡ total js xs ⊕ total ks xs
  unfolding total
  total-add_counts [] ks xs = sym (nought-add _)
  total-add_counts (j ∷ js) [] xs = sym (add-nought _)
  total-add_counts (j ∷ js) (k ∷ ks) [] = sym (add-nought _)
  total-add_counts (j ∷ js) (k ∷ ks) (x ∷ xs) =
      rw (times-add j k x, total-add_counts js ks xs) (interchange _ _ _ _)

  total-unit_at : (i : ℕ) (xs : List N) → total (unit_at i) xs ≡ value_at xs i
  unfolding total times
  total-unit_at zero [] = refl
  total-unit_at (suc i) [] = refl
  total-unit_at zero (x ∷ xs) = rw (add-nought (x ⊕ nought)) (add-nought x)
  total-unit_at (suc i) (x ∷ xs) = nought-add _ ∙ total-unit_at i xs

  same_counts_sound :
      (js ks : List ℕ) (xs : List N) → same_counts js ks ≡ true → total js xs ≡ total ks xs
  unfolding total times
  same_counts_sound [] [] xs h = refl
  same_counts_sound [] (k ∷ ks) [] h = refl
  same_counts_sound [] (k ∷ ks) (x ∷ xs) h =
      let (z, rest) = and_true _ _ h in
      rw (==→eq k 0 z, ← same_counts_sound [] ks xs rest) (sym (nought-add _))
  same_counts_sound (j ∷ js) [] [] h = refl
  same_counts_sound (j ∷ js) [] (x ∷ xs) h =
      let (z, rest) = and_true _ _ h in
      rw (==→eq j 0 z, same_counts_sound js [] xs rest) (nought-add _)
  same_counts_sound (j ∷ js) (k ∷ ks) [] h = refl
  same_counts_sound (j ∷ js) (k ∷ ks) (x ∷ xs) h =
      let (z, rest) = and_true _ _ h in rw (==→eq j k z, same_counts_sound js ks xs rest)

  -- A sum and what it takes away come to what it adds.
  read-taken : (xs : List N) (s : Sum) → read xs s ⊕ total (taken s) xs ≡ total (added s) xs
  unfolding total
  read-taken xs (at i) = add-nought _ ∙ sym (total-unit_at i xs)
  read-taken xs null = add-nought _
  read-taken xs (plus s t) =
      rw (total-add_counts (taken s) (taken t) xs, total-add_counts (added s) (added t) xs)
        (interchange _ _ _ _ ∙ ap₂ ◌⊕◌ (read-taken xs s) (read-taken xs t))
  read-taken xs (minus s t) =
      rw
        (
          total-add_counts (taken s) (added t) xs,
          total-add_counts (added s) (taken t) xs,
          sub-eq-add,
        )
        (interchange _ _ _ _
          ∙ ap₂ ◌⊕◌ (read-taken xs s)
              (rw (← read-taken xs t) (negate-add_cancel (read xs t) (total (taken t) xs))))
  read-taken xs (opposite s) =
      rw (← read-taken xs s) (negate-add_cancel (read xs s) (total (taken s) xs))

  -- Two sums that count alike have one value.
  pub linear :
      (xs : List N) (s t : Sum)
      → same_counts (add_counts (added s) (taken t)) (add_counts (added t) (taken s)) ≡ true
      → read xs s ≡ read xs t
  linear xs s t h =
      let ts = total (taken s) xs in
      let tt' = total (taken t) xs in
      add_right_cancel _ _ (ts ⊕ tt') (
        sym (add_assoc _ ts tt')
        ∙ ap (λ v. v ⊕ tt') (read-taken xs s)
        ∙ sym (total-add_counts (added s) (taken t) xs)
        ∙ same_counts_sound _ _ xs h
        ∙ total-add_counts (added t) (taken s) xs
        ∙ ap (λ v. v ⊕ ts) (sym (read-taken xs t))
        ∙ add_assoc _ tt' ts
        ∙ ap (λ v. read xs t ⊕ v) (add_comm tt' ts))

  -- An equation that follows from another by adding it on both sides.
  pub by_cancel : (a b : N) {u v : N} → u ≡ v → a ⊕ v ≡ b ⊕ u → a ≡ b
  by_cancel a b {u} {v} h e = add_right_cancel a b v (e ∙ ap (λ x. b ⊕ x) h)
