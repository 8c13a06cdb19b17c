-- ===== src/SymbolMeta/Examples.antt =====
-- The tick of three prices: 0.5 and 1.25 and 10.00 lie on a grid of 0.25.
use perpetuals_carry_strateg.Base.{ℕ, false, List, [], ◌∷◌, ◌≡◌, refl}
use perpetuals_carry_strateg.Base.Result.{ok, err, Error}
use perpetuals_carry_strateg.SymbolMeta.{Exponent, Exact, scale_of, most_places, decimal_gcd}
use perpetuals_carry_strateg.SymbolMeta.Grid.{IsGrid, decimal_gcd-IsGrid}

abbrev decimal_of : ℕ → ℕ → Exact
decimal_of digits places = record {
  is_negative = false;
  digits = digits;
  exponent = Exponent.lowered places;
}

abbrev prices : List Exact
prices = decimal_of 5 1 ∷ decimal_of 125 2 ∷ decimal_of 1_000 2 ∷ []

derived : decimal_gcd prices ≡ ok (decimal_of 25 2)
unfolding decimal_gcd
derived = refl

-- The places of the text do not matter: 1.0 and 10.0 lie on a grid of 1.
whole_grid :
    decimal_gcd (decimal_of 10 1 ∷ decimal_of 100 1 ∷ [])
    ≡ ok (record { is_negative = false; digits = 1; exponent = Exponent.raised 0 })
unfolding decimal_gcd
whole_grid = refl

zero_refused : decimal_gcd (decimal_of 10 1 ∷ decimal_of 0 1 ∷ []) ≡ err Error.symbol_meta_error
unfolding decimal_gcd
zero_refused = refl

-- A single value of 35 digits is rounded to 28, and is not a multiple of what is derived from it.
rounded :
    decimal_gcd (decimal_of 12_345_678_901_234_567_890_123_456_789_012_345 34 ∷ [])
    ≡ ok (decimal_of 1_234_567_890_123_456_789_012_345_679 27)
unfolding decimal_gcd
rounded = refl

decimal_gcd-IsGrid_example : IsGrid prices (decimal_of 25 2)
unfolding scale_of most_places
decimal_gcd-IsGrid_example = decimal_gcd-IsGrid prices refl derived
