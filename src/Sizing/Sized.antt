-- ===== src/Sizing/Sized.antt =====
-- What a size that `size_position` returns rests on.
use mathlib.Core.Path.{subst}
use perpetuals_carry_strateg.Base.{
  ℕ, ◌+◌, ◌-◌, ◌≤◌, Bool, true, false, Option, none, some, List, [], ◌∷◌, ◌≡◌, refl, sym, ◌∙◌, ap,
  inl, inr, arith, ltb, ◌==◌, if◌then◌else◌, Bool-cases,
}
use perpetuals_carry_strateg.Base.Lists.{All}
use perpetuals_carry_strateg.Base.Result.{Result, ok, >>-eq-ok, >>=-eq-ok, ok_injective}
use perpetuals_carry_strateg.Number.{Number, Conversions, ◌⊖◌, ◌⊗◌, ◌≼◌, nought, is_finite}
use perpetuals_carry_strateg.Checks.{integer}
use perpetuals_carry_strateg.Carry.Types.{Numpy, CostEstimate}
use perpetuals_carry_strateg.Carry.Decide.{Decision}
use perpetuals_carry_strateg.Sizing.{SizingResult, fixed_fraction, round_trip_coefficient}
use perpetuals_carry_strateg.Sizing.Search.{search, search_within}
use perpetuals_carry_strateg.Sizing.Market.{
  max_int, min_int, Rounding, Candidate, Quote, is_enter, inputs_refused, first_lot, last_lot,
  quote, gate,
}
use perpetuals_carry_strateg.Sizing.Choice.{
  better, Best, Outcome, factor_of, empty_with, candidates, best_of, samples_of,
}
use perpetuals_carry_strateg.Sizing.Position.{
  target_of, sized, conclude, choose_by_mean, choose, size_from, size_position,
}

abbrev Within : ℕ → ℕ → ℕ → Type 0
Within low high k = (low ≤ k) × (k ≤ high)

-- A number between two bounds that the two are clamped to.
clamped-Within :
    (first last target : ℕ) → first ≤ last → Within first last (max_int first (min_int last target))
clamped-Within first last target h = ground arith

candidates-Within :
    (first last target : ℕ) → first ≤ last → All (Within first last) (candidates first last target)
unfolding candidates
candidates-Within first last target h =
    let a = clamped-Within first last target h in
    let b = clamped-Within first last (target + 1) h in
    elim (max_int first (min_int last target) == max_int first (min_int last (target + 1)))
      as (λ same. All (Within first last) (
        if same
        then max_int first (min_int last target) ∷ []
        else max_int first (min_int last target)
          ∷ max_int first (min_int last (target + 1))
          ∷ [])) [ true ↦ (a, tt) | false ↦ (a, (b, tt)) ]

module _ {D F : Type 0} ⦃d : Number D⦄ ⦃n : Number F⦄ ⦃v : Conversions D F⦄ ⦃np : Numpy F⦄ where
  if_usable :
      (finite : Bool) (x : Result (Outcome D F)) {best : Option (Best D F)}
      → (if finite then x else ok Outcome.unusable) ≡ ok (Outcome.reached best)
      → x ≡ ok (Outcome.reached best)
  if_usable true x h = h
  if_usable false x h = ground arith

  -- The quote of a number of lots between two bounds.
  abbrev IsQuoted : Candidate D F → ℕ → ℕ → Best D F → Type 0
  IsQuoted c low high best = (lots : ℕ) × (low ≤ lots) × (lots ≤ high) × (quote c lots ≡ ok best.at)

  abbrev IsQuotedIfAny : Candidate D F → ℕ → ℕ → Option (Best D F) → Type 0
  IsQuotedIfAny c low high none = Unit {0}
  IsQuotedIfAny c low high (some best) = IsQuoted c low high best

  best_of-IsQuoted :
      (c : Candidate D F) (low high : ℕ) (lots : List ℕ) (best : Option (Best D F)) {b : Best D F}
      → All (Within low high) lots
      → IsQuotedIfAny c low high best
      → best_of c lots best ≡ ok (Outcome.reached (some b))
      → IsQuoted c low high b
  unfolding best_of
  best_of-IsQuoted c low high [] none all given h = ground arith
  best_of-IsQuoted c low high [] (some best) {b} all given h =
      let same : best ≡ b = ground arith in subst (IsQuoted c low high) same given
  best_of-IsQuoted c low high (k ∷ rest) best {b} (here, all) given h =
      let (q, quoted, h₁) = >>=-eq-ok (quote c k) _ h in
      let (share, _, h₂) = >>=-eq-ok (factor_of q.decision.expected_incremental_fraction) _ h₁ in
      let profit = q.estimate.notional_usdt ⊗ share in
      let new : Best D F = record { profit = profit; at = q } in
      let next : Option (Best D F) = if better best profit then some new else best in
      let kept : IsQuotedIfAny c low high next =
        elim (better best profit)
          as (λ gain. IsQuotedIfAny c low high (if gain then some new else best)) [
            | true ↦ (k, here.0, here.1, quoted)
            | false ↦ given
          ] in
      let continued : best_of c rest next ≡ ok (Outcome.reached (some b)) =
        if_usable (is_finite profit) _ h₂ in
      best_of-IsQuoted c low high rest next all kept continued

module _ {D F : Type 0} ⦃d : Number D⦄ ⦃n : Number F⦄ ⦃v : Conversions D F⦄ ⦃r : Rounding D⦄
    ⦃np : Numpy F⦄ where
  -- A size that rests on a quote: whole lots between the first and the last, whose estimate and
  -- decision are those of the quote, with a profit above zero and inputs that are in force.
  pub record IsSized (c : Candidate D F) (result : SizingResult D F) : Type 0 where
    pub lots : ℕ
    pub at_least : first_lot c ≤ lots
    pub at_most : lots ≤ last_lot c
    pub quoted : Quote D F
    pub quote_of_lots : quote c lots ≡ ok quoted
    pub quantity : result.quantity_base ≡ quoted.quantity
    pub estimate : result.cost_estimate ≡ some quoted.estimate
    pub decision : result.decision ≡ quoted.decision
    pub gains : (result.expected_net_usdt ≼ nought) ≡ false
    pub in_force : inputs_refused c ≡ false

  -- An empty result has no estimate.
  not_empty :
      (decision : Decision F) {result : SizingResult D F} {e : CostEstimate F}
      → empty_with decision ≡ result
      → result.cost_estimate ≡ some e
      → ⊥
  not_empty decision h k = ground arith

  conclude-eq-ok :
      (c : Candidate D F) (lots : ℕ) (edge coefficient : F) (o : Outcome D F)
      {result : SizingResult D F} {e : CostEstimate F}
      → conclude c lots edge coefficient o ≡ ok result
      → result.cost_estimate ≡ some e
      → (best : Best D F) × (o ≡ Outcome.reached (some best))
        × ((best.profit ≼ nought) ≡ false)
        × (sized c lots edge coefficient best ≡ result)
  unfolding conclude
  conclude-eq-ok c lots edge coefficient Outcome.unusable h k =
      elim (not_empty _ (ok_injective h) k) [ ]
  conclude-eq-ok c lots edge coefficient (Outcome.reached none) h k = cc
  conclude-eq-ok c lots edge coefficient (Outcome.reached (some best)) h k =
      elim (Bool-cases (best.profit ≼ nought)) [
        | inl none_left ↦ elim (not_empty _ (ok_injective (rw none_left at h)) k) [ ]
        | inr gains ↦ (best, refl, gains, ok_injective (rw gains at h))
      ]

  choose_by_mean-IsSized :
      (c : Candidate D F) (feasible_last : ℕ) (mu : F) {result : SizingResult D F}
      {e : CostEstimate F}
      → choose_by_mean c feasible_last mu ≡ ok result
      → result.cost_estimate ≡ some e
      → first_lot c ≤ feasible_last
      → feasible_last ≤ last_lot c
      → inputs_refused c ≡ false
      → IsSized c result
  unfolding choose_by_mean sized
  choose_by_mean-IsSized c feasible_last mu h₁ k low high admitted =
      let edge = mu ⊖ fixed_fraction c.charges in
      let coefficient = round_trip_coefficient c.curve in
      let target = target_of c feasible_last edge coefficient in
      let lots = candidates (first_lot c) feasible_last target in
      elim (Bool-cases (is_finite coefficient)) [
        | inr infinite ↦ elim (not_empty _ (ok_injective (rw infinite at h₁)) k) [ ]
        | inl finite ↦
            let (o, reached, h₂) = >>=-eq-ok (best_of c lots none) _ (rw finite at h₁) in
            let (best, same, gains, made) =
              conclude-eq-ok c feasible_last edge coefficient o h₂ k in
            let (chosen, above, below, quoted) =
              best_of-IsQuoted c (first_lot c) feasible_last lots none
                (candidates-Within (first_lot c) feasible_last target low) tt
                (reached ∙ ap ok same) in
            record {
              lots = chosen;
              at_least = above;
              at_most = omega (arith, below, high);
              quoted = best.at;
              quote_of_lots = quoted;
              quantity = ap (λ x. x.quantity_base) (sym made);
              estimate = ap (λ x. x.cost_estimate) (sym made);
              decision = ap (λ x. x.decision) (sym made);
              gains = subst (λ x. (x.expected_net_usdt ≼ nought) ≡ false) made gains;
              in_force = admitted;
            }
      ]

  choose-IsSized :
      (c : Candidate D F) (feasible_last : ℕ) {result : SizingResult D F} {e : CostEstimate F}
      → choose c feasible_last ≡ ok result
      → result.cost_estimate ≡ some e
      → first_lot c ≤ feasible_last
      → feasible_last ≤ last_lot c
      → inputs_refused c ≡ false
      → IsSized c result
  unfolding choose
  choose-IsSized c feasible_last h k low high admitted =
      let (samples, _, h₁) = >>=-eq-ok (samples_of c.forecast) _ h in
      choose_by_mean-IsSized c feasible_last (np.mean samples) h₁ k low high admitted

  size_from-IsSized :
      (c : Candidate D F) {result : SizingResult D F} {e : CostEstimate F}
      → size_from c ≡ ok result
      → result.cost_estimate ≡ some e
      → first_lot c ≤ last_lot c
      → inputs_refused c ≡ false
      → IsSized c result
  unfolding size_from
  size_from-IsSized c h k some_lot admitted =
      let (least, _, h₁) = >>=-eq-ok (quote c (first_lot c)) _ h in
      elim (Bool-cases (is_enter least.decision.action)) [
        | inr stays ↦ elim (not_empty _ (ok_injective (rw stays at h₁)) k) [ ]
        | inl enters ↦
            let (found, searched, h₂) =
              >>=-eq-ok (search (gate c) (last_lot c - first_lot c) (first_lot c) (last_lot c)) _
                (rw enters at h₁) in
            let (low, high) = search_within (gate c) _ _ _ some_lot searched in
            choose-IsSized c found h₂ k low high admitted
      ]

  -- A result of `size_position` with a cost estimate is a size: whole lots between the first and
  -- the last that the limits allow, whose estimate and decision are those of their own quote, with
  -- an expected profit above zero, of inputs that are of the strategy's symbol and in force.
  pub size_position-IsSized :
      (c : Candidate D F) {result : SizingResult D F} {e : CostEstimate F}
      → size_position c ≡ ok result
      → result.cost_estimate ≡ some e
      → IsSized c result
  unfolding size_position
  size_position-IsSized c h k =
      let (_, h₁) = >>-eq-ok (integer c.now_ms 0) _ h in
      elim (Bool-cases (inputs_refused c)) [
        | inl refused ↦ elim (not_empty _ (ok_injective (rw refused at h₁)) k) [ ]
        | inr admitted ↦ elim (Bool-cases (ltb (last_lot c) (first_lot c))) [
          | inl no_lot ↦ elim (not_empty _ (ok_injective (rw (admitted, no_lot) at h₁)) k) [ ]
          | inr some_lot ↦
              size_from-IsSized c (rw (admitted, some_lot) at h₁) k (ground arith) admitted
        ]
      ]
