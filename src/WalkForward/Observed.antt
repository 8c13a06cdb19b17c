-- ===== src/WalkForward/Observed.antt =====
-- What the funding model of a run has seen: settlements of the run, up to its clock.
use mathlib.Core.Path.{subst}
use perpetuals_carry_strateg.Base.{
  ℕ, ◌≤◌, List, [], ◌∷◌, ◌≡◌, refl, sym, ap, ◌∙◌, ◌⊎◌, inl, inr, not, arith,
}
use perpetuals_carry_strateg.Base.Lists.{All}
use perpetuals_carry_strateg.Base.Result.{
  ok, Error, >>-eq-ok, >>=-eq-ok, raise_if-eq-ok, ok_injective,
}
use perpetuals_carry_strateg.Number.{Number, Conversions}
use perpetuals_carry_strateg.Accounting.State.{start}
use perpetuals_carry_strateg.Carry.Types.{Numpy}
use perpetuals_carry_strateg.Rolling.History.{Row, RollingFundingModel, create, at_least}
use perpetuals_carry_strateg.Rolling.Update.{update-All}
use perpetuals_carry_strateg.Sizing.Market.{Rounding}
use perpetuals_carry_strateg.WalkForward.{FundingEvent, StreamEvent, Environment, Runner, mode_eq}
use perpetuals_carry_strateg.WalkForward.Stream.{begin}
use perpetuals_carry_strateg.WalkForward.FundingSteps.{row_of}
use perpetuals_carry_strateg.WalkForward.Run.{
  time_of, Run, idle, onward, IsProcessed, funded, marketed, process-IsProcessed,
}

module _ {A : Type 0} {P Q : A → Type 0} (weaken : (x : A) → P x → Q x) where
  All-weaken : (xs : List A) → All P xs → All Q xs
  All-weaken [] a = tt
  All-weaken (x ∷ xs) (p, ps) = (weaken x p, All-weaken xs ps)

create-history :
    {F : Type 0} (days least : ℕ) {m : RollingFundingModel F}
    → create days least ≡ ok m
    → m.history ≡ []
unfolding create
create-history days least h =
    let (_, rest) = >>-eq-ok (at_least days 1) _ h in
    let (_, done) = >>-eq-ok (at_least least 3) _ rest in
    sym (ap (λ m. m.history) (ok_injective done))

module _ {D F Summary : Type 0} ⦃d : Number D⦄ ⦃n : Number F⦄ ⦃v : Conversions D F⦄
    ⦃rd : Rounding D⦄ ⦃np : Numpy F⦄ (env : Environment D F Summary) where
  -- An event is one of those that a run has accepted.
  abbrev pub Accepted : {first r : Runner D F} → StreamEvent D F → Run env first r → Type 0
  Accepted event idle = ⊥
  Accepted event (onward e run accepted) = (e ≡ event) ⊎ Accepted event run

  -- A row is that of an accepted settlement, not after the clock.
  abbrev pub IsObserved : {first r : Runner D F} → Run env first r → Row F → Type 0
  IsObserved {r = r} run row =
      (event : FundingEvent D) × Accepted (StreamEvent.funding event) run
      × (row ≡ row_of event)
      × (row.time ≤ r.last_time)

  begin-history : {r : Runner D F} → begin env ≡ ok r → r.model.history ≡ []
  unfolding begin
  begin-history h =
      let config = env.config in
      let (_, h₁) =
        raise_if-eq-ok (not (mode_eq env.executor.mode config.execution_mode)) Error.value_error _
          h in
      let (m, created, h₂) = >>=-eq-ok (create config.rolling_days config.min_settlements) _ h₁ in
      let (l, _, done) =
        >>=-eq-ok (start config.symbol config.initial_capital_usdt config.start_ms env.fees) _ h₂ in
      sym (ap (λ r. r.model.history) (ok_injective done))
      ∙ create-history config.rolling_days config.min_settlements created

  -- The clock after an event is its time.
  processed-last_time :
      {arrived r' : Runner D F} {event : StreamEvent D F}
      → IsProcessed env arrived r' event
      → r'.last_time ≡ arrived.last_time
  processed-last_time (funded f) = f.safe.keeps.last_time
  processed-last_time (marketed m) = m.safe.keeps.last_time

  processed-All :
      (P : Row F → Type 0) {arrived r' : Runner D F} (event : StreamEvent D F)
      → IsProcessed env arrived r' event
      → All P arrived.model.history
      → ((e : FundingEvent D) → event ≡ StreamEvent.funding e → P (row_of e))
      → All P r'.model.history
  processed-All P {arrived} _ (funded {event} f) a p =
      subst (λ m. All P m.history) (sym f.safe.keeps.model)
        (update-All P arrived.model (row_of event) f.updated a (p event refl))
  processed-All P _ (marketed m) a p = subst (λ m. All P m.history) (sym m.safe.keeps.model) a

  -- In a run from its beginning the funding model has seen nothing but settlements that the run has
  -- accepted, none of them after the time of the last event.
  pub Run-IsObserved :
      {first r : Runner D F}
      → begin env ≡ ok first
      → (run : Run env first r) → All (IsObserved run) r.model.history
  Run-IsObserved {first} h idle =
      subst (All (IsObserved {first = first} idle)) (sym (begin-history h)) tt
  Run-IsObserved h (onward {r} {r'} event run accepted) =
      let (arrived, a, p) = process-IsProcessed env r event accepted in
      let clock : r'.last_time ≡ time_of event =
        processed-last_time p ∙ ap (λ x. x.last_time) (sym a.same) in
      let order = a.in_order in
      let before =
        All-weaken
          (λ row (e, among, same, by).
            let later : row.time ≤ r'.last_time = omega (arith, by, order, clock) in
            (e, inr among, same, later))
          r.model.history (Run-IsObserved h run) in
      processed-All (IsObserved (onward event run accepted)) event p
        (subst (λ x. All (IsObserved (onward event run accepted)) x.model.history) a.same before)
        (λ e is_funding.
          let at : time_of event ≡ e.time_ms = ap time_of is_funding in
          let by : e.time_ms ≤ r'.last_time = omega (arith, at, clock) in
          (e, inl is_funding, refl, by))
