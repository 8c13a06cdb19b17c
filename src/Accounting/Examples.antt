-- ===== src/Accounting/Examples.antt =====
-- A carry that is opened, settled, charged and closed, and the theorems at that history.
use perpetuals_carry_strateg.Base.{
  ℕ, ◌+◌, ◌<◌, ◌⊎◌, inl, String, false, some, List, [], ◌∷◌, ◌≡◌, refl,
}
use perpetuals_carry_strateg.Base.Result.{Result, ok, err, Error}
use perpetuals_carry_strateg.Number.Whole.{ℤ, pos, negsuc}
use perpetuals_carry_strateg.Number.Points.{
  Points, points_number, whole_number, Points-IsExact, Points-IsOrdered, plus, opposite, times,
  over,
}
use perpetuals_carry_strateg.Fees.{Market, FeePeriod, FeeSchedule, FeeKind, quote}
use perpetuals_carry_strateg.Accounting.State.{
  started, Ledger, Fill, FundingSettlement, Marks, Valuation, start,
}
use perpetuals_carry_strateg.Accounting.Fills.{fill}
use perpetuals_carry_strateg.Accounting.Payments.{settle, finance}
use perpetuals_carry_strateg.Accounting.Valuing.{value, valued}
use perpetuals_carry_strateg.Accounting.Steps.{
  run, run-History, Event, apply, History, begun, after,
}
use perpetuals_carry_strateg.Accounting.Cash.{IsExactHistory}
use perpetuals_carry_strateg.Accounting.Balance.{Balances, value-Balances}
use perpetuals_carry_strateg.Accounting.Order.{IsOrderly, History-IsOrderly}
use perpetuals_carry_strateg.Accounting.Replay.{replay_refused}
use perpetuals_carry_strateg.Accounting.Boundaries.{perp_fill-settle_apart}
use perpetuals_carry_strateg.Accounting.Sides.{IsCarry, History-IsCarry}

abbrev signed : ℤ → Points
signed w = record { whole = w; points = pos 0 }

abbrev five_points : Points
five_points = record { whole = pos 0; points = pos 5 }

abbrev period : Market → FeePeriod Points
period market = record {
  symbol = "BTCUSDT";
  market = market;
  start_ms = 0;
  end_ms = 1_000_000_000;
  taker_fraction = five_points;
  source = "https://example.org/fees";
  observed_at_ms = 0;
  kind = FeeKind.verified;
}

abbrev fees : FeeSchedule Points
fees = record { periods = period Market.spot ∷ period Market.perp ∷ []; allow_assumptions = false }

abbrev trade_of : String → ℕ → Market → ℤ → ℕ → Event Points
trade_of id time market quantity price = Event.trade_filled (record {
  event_id = id;
  symbol = "BTCUSDT";
  time_ms = time;
  market = market;
  quantity = signed quantity;
  price = whole_number price;
  reference_mid = whole_number 100;
})

abbrev funding : Event Points
funding = Event.funding_settled (record {
  event_id = "f1";
  symbol = "BTCUSDT";
  time_ms = 3_600_000;
  interval_hours = 8;
  rate = whole_number 1;
  mark_price = some (whole_number 101);
})

abbrev events : List (Event Points)
events =
    trade_of "s1" 1000 Market.spot (pos 2) 101
    ∷ trade_of "p1" 1000 Market.perp (negsuc 1) 99
    ∷ funding
    ∷ Event.cost_financed "c1" 3_700_000 (whole_number 3)
    ∷ trade_of "s2" 3_700_000 Market.spot (negsuc 0) 104
    ∷ trade_of "p2" 3_700_000 Market.perp (pos 1) 103
    ∷ []

abbrev begin : Result (Ledger Points)
begin = start "BTCUSDT" (whole_number 1000) 3_600_000 fees

abbrev or_else : Result (Ledger Points) → Ledger Points → Ledger Points
or_else (ok l) _ = l
or_else (err _) l = l

opened : Ledger Points
unfolding start
opened = started "BTCUSDT" (whole_number 1000) 3_600_000 fees

opened_lem : begin ≡ ok opened
unfolding opened
opened_lem = refl

done : Ledger Points
unfolding run plus opposite times over quote fill settle finance
done = or_else (run opened events) opened

done_lem : run opened events ≡ ok done
unfolding done opened
done_lem = refl

-- 1000 - 202 + 202 - 3 + 104 - 4, and five points on a turnover of 607.
closing_cash : done.cash_usdt ≡ record { whole = pos 1097; points = negsuc 3034 }
unfolding done opened
closing_cash = refl

history : History opened done
history = run-History opened events begun done_lem

History-IsOrderly_example : IsOrderly done
History-IsOrderly_example =
    History-IsOrderly "BTCUSDT" (whole_number 1000) 3_600_000 fees opened_lem history

History-IsCarry_example : IsCarry done
History-IsCarry_example =
    History-IsCarry Points-IsOrdered "BTCUSDT" (whole_number 1000) 3_600_000 fees opened_lem history

-- The ledger after some events of the list.
state : List (Event Points) → Ledger Points
unfolding run plus opposite times over quote fill settle finance opened
state es = or_else (run opened es) opened

abbrev bought : Event Points
bought = trade_of "s1" 1000 Market.spot (pos 2) 101

abbrev sold : Event Points
sold = trade_of "s2" 2000 Market.spot (negsuc 0) 104

after_bought : apply opened bought ≡ ok (state (bought ∷ []))
unfolding state
after_bought = refl

after_sold : apply (state (bought ∷ [])) sold ≡ ok (state (bought ∷ sold ∷ []))
unfolding state
after_sold = refl

abbrev round_trip : History opened (state (bought ∷ sold ∷ []))
round_trip = after sold (after bought begun after_bought) after_sold

round_trip_exact : IsExactHistory round_trip
unfolding state
round_trip_exact = ((tt, λ _. refl), λ _. refl)

abbrev marks : Marks Points
marks = record {
  symbol = "BTCUSDT";
  time_ms = 3000;
  spot = whole_number 110;
  perp = whole_number 109;
}

valuation : Valuation Points
unfolding state
valuation = valued (state (bought ∷ sold ∷ [])) marks

valuation_lem : value (state (bought ∷ sold ∷ [])) marks ≡ ok valuation
unfolding valuation value
valuation_lem = refl

value-Balances_example : Balances (whole_number 1000) valuation
value-Balances_example =
    value-Balances Points-IsExact "BTCUSDT" (whole_number 1000) 3_600_000 fees marks opened_lem
      round_trip round_trip_exact valuation_lem

replay_refused_example :
    apply (state (bought ∷ sold ∷ [])) (Event.cost_financed "s1" 2500 (whole_number 1))
    ≡ err Error.value_error
replay_refused_example =
    replay_refused opened bought (Event.cost_financed "s1" 2500 (whole_number 1)) after_bought
      (after sold begun after_sold) refl

-- Both legs are opened, and funding is settled an hour later.
abbrev perp_sold : Fill Points
perp_sold = record {
  event_id = "p1";
  symbol = "BTCUSDT";
  time_ms = 1000;
  market = Market.perp;
  quantity = signed (negsuc 1);
  price = whole_number 99;
  reference_mid = whole_number 100;
}

abbrev first_funding : FundingSettlement Points
first_funding = record {
  event_id = "f1";
  symbol = "BTCUSDT";
  time_ms = 3_600_000;
  interval_hours = 8;
  rate = whole_number 1;
  mark_price = some (whole_number 101);
}

abbrev both_legs : List (Event Points)
both_legs = bought ∷ Event.trade_filled perp_sold ∷ []

after_perp_sold : fill (state (bought ∷ [])) perp_sold ≡ ok (state both_legs)
unfolding state
after_perp_sold = refl

after_funding :
    settle (state both_legs) first_funding
    ≡ ok (state (bought ∷ Event.trade_filled perp_sold ∷ Event.funding_settled first_funding ∷ []))
unfolding state
after_funding = refl

perp_fill-settle_apart_example : (1000 + 15_000 < 3_600_000) ⊎ (3_600_000 + 15_000 < 1000)
perp_fill-settle_apart_example =
    perp_fill-settle_apart perp_sold first_funding (state (bought ∷ [])) (state both_legs) refl
      after_perp_sold after_funding (inl begun)
