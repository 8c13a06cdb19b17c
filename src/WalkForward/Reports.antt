-- ===== src/WalkForward/Reports.antt =====
-- `_Runner.record`.
use perpetuals_carry_strateg.Base.{ℕ, String, Bool, true, false, Option, none, some}
use perpetuals_carry_strateg.Number.{Number, Conversions, ◌⊗◌, ◌⊘◌, negate}
use perpetuals_carry_strateg.Calendar.{fold_start}
use perpetuals_carry_strateg.Accounting.State.{Valuation}
use perpetuals_carry_strateg.Carry.Types.{Position, FundingForecast}
use perpetuals_carry_strateg.Carry.Decide.{Decision}
use perpetuals_carry_strateg.Sizing.{SizingResult}
use perpetuals_carry_strateg.Execution.{Opportunity, MarketEvent}
use perpetuals_carry_strateg.WalkForward.{FundingEvent, EventType, Record, Environment, Runner}

module _ {F : Type 0} where
  abbrev pub planned_of : Option (Position F) → Option ℕ
  planned_of none = none
  planned_of (some p) = some p.planned_settlements

  abbrev pub held_of : Option (Position F) → ℕ
  held_of none = 0
  held_of (some p) = p.settlements_held

module _ {D F : Type 0} ⦃d : Number D⦄ ⦃v : Conversions D F⦄ where
  -- What a record takes of the opportunity.
  abbrev pub fraction_of : D → Option (Opportunity D F) → Option F
  fraction_of quantity none = none
  fraction_of quantity (some o) = some (v.to_float (quantity ⊘ v.to_decimal o.market.adv_base))

  abbrev pub impact_of : Option (Opportunity D F) → Option String
  impact_of none = none
  impact_of (some o) = some o.curve.artifact_sha256

  abbrev pub evidence_of : Option (Opportunity D F) → Option String
  evidence_of none = none
  evidence_of (some o) = elim o.approval [ none ↦ none | some a ↦ some a.evidence_sha256 ]

  -- `self.admit(event) is not None if opportunity else False`
  abbrev pub is_given : Option (Opportunity D F) → Bool
  is_given none = false
  is_given (some o) = true

module _ {D F Summary : Type 0} where
  abbrev pub described :
      Environment D F Summary → Option (FundingForecast F) → Option (Summary × String)
  described env none = none
  described env (some f) = some (env.summarize f.prediction, f.model_sha256)

module _ {D F Summary : Type 0} ⦃d : Number D⦄ ⦃v : Conversions D F⦄ where
  -- `record` for a funding event.
  unfoldable pub record_funding :
      Environment D F Summary → Runner D F → FundingEvent D → Record D F Summary
  unfolding fold_start
  record_funding env r event = record {
    event_id = event.event_id;
    time_ms = event.time_ms;
    fold_start_ms = fold_start event.time_ms;
    event_type = EventType.funding;
    decision = none;
    valuation = none;
    planned_settlements = planned_of r.position;
    settlements_held = held_of r.position;
    quantity_base = negate r.ledger.perp.quantity;
    adv_fraction = none;
    notional_usdt = none;
    impact_sha256 = none;
    funding_approval_sha256 = none;
    forecast = none;
    execution_mode = env.config.execution_mode;
    cash_usdt = r.ledger.cash_usdt;
    funding_usdt = r.ledger.funding_usdt;
    evidence_admitted = false;
    sizing = none;
  }

  -- `record` for a market event, given what `admit` says of its opportunity.
  unfoldable pub record_market :
      Environment D F Summary
      → Runner D F
      → MarketEvent D F
      → Option (Decision F)
      → Valuation D
      → Option (FundingForecast F)
      → Option (SizingResult D F)
      → Bool
      → Record D F Summary
  unfolding fold_start
  record_market env r event decision valuation forecast result admitted =
      let quantity = negate r.ledger.perp.quantity in
      record {
        event_id = event.event_id;
        time_ms = event.time_ms;
        fold_start_ms = fold_start event.time_ms;
        event_type = EventType.market;
        decision = decision;
        valuation = some valuation;
        planned_settlements = planned_of r.position;
        settlements_held = held_of r.position;
        quantity_base = quantity;
        adv_fraction = fraction_of quantity event.opportunity;
        notional_usdt = some (quantity ⊗ event.perp_mid);
        impact_sha256 = impact_of event.opportunity;
        funding_approval_sha256 = evidence_of event.opportunity;
        forecast = described env forecast;
        execution_mode = env.config.execution_mode;
        cash_usdt = r.ledger.cash_usdt;
        funding_usdt = r.ledger.funding_usdt;
        evidence_admitted = admitted;
        sizing = result;
      }
