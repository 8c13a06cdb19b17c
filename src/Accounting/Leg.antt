-- ===== src/Accounting/Leg.antt =====
-- `class Leg`: a signed quantity with its remaining cost basis and the profit realized so far.
use perpetuals_carry_strateg.Base.{Bool, if◌then◌else◌}
use perpetuals_carry_strateg.Number.{Number, ◌⊕◌, ◌⊖◌, ◌⊗◌, ◌⊘◌, ◌≺◌, negate, nought}

pub record Leg (D : Type 0) : Type 0 where
  pub quantity : D
  pub basis_usdt : D
  pub realized_usdt : D

module _ {D : Type 0} ⦃n : Number D⦄ where
  -- `Leg()`
  abbrev pub flat : Leg D
  flat = record { quantity = nought; basis_usdt = nought; realized_usdt = nought }

  -- Whether a trade reduces the leg.
  abbrev pub closes : Leg D → D → Bool
  closes leg quantity = leg.quantity ⊗ quantity ≺ nought

  abbrev pub average : Leg D → D
  average leg = leg.basis_usdt ⊘ leg.quantity

  unfoldable pub realized_by : Leg D → D → D → D
  realized_by leg quantity price =
      if closes leg quantity then negate quantity ⊗ (price ⊖ average leg) else nought

  unfoldable pub basis_after : Leg D → D → D → D
  basis_after leg quantity price =
      if closes leg quantity
      then (leg.quantity ⊕ quantity) ⊗ average leg
      else leg.basis_usdt ⊕ quantity ⊗ price

  -- `Leg.trade`: the leg afterwards, and what the trade realized.
  unfoldable pub trade : Leg D → D → D → Leg D × D
  unfolding realized_by basis_after
  trade leg quantity price =
      let realized = realized_by leg quantity price in
      let updated : Leg D = record {
        quantity = leg.quantity ⊕ quantity;
        basis_usdt = basis_after leg quantity price;
        realized_usdt = leg.realized_usdt ⊕ realized;
      } in
      (updated, realized)

  unfoldable pub unrealized : Leg D → D → D
  unrealized leg mark = leg.quantity ⊗ mark ⊖ leg.basis_usdt
