-- ===== src/SymbolMeta.antt =====
-- The grid of observed prices or quantities: `decimal_gcd` of
-- python/perpcarry/ingestion/derive_symbol_meta.py.
--
-- A value is the finite Decimal of a text, as its `as_tuple()` gives it. `math.gcd` is Euclid's
-- algorithm, on fuel that is one more than the second number. `scaleb` rounds the grid to the 28
-- digits of the default context, half to even; the digits beyond them are counted on as much fuel
-- as the number, of which one is used for each digit.
pub mod Divisors
pub mod Grid
mod Examples
use perpetuals_carry_strateg.Base.{
  ℕ, zero, suc, ◌+◌, ◌-◌, ◌*◌, ◌/◌, ◌%◌, Bool, true, false, ◌||◌, ◌&&◌, List, [], ◌∷◌, ltb, ◌==◌,
  if◌then◌else◌,
}
use perpetuals_carry_strateg.Base.Lists.{any}
use perpetuals_carry_strateg.Base.Result.{Result, ok, err, Error, raise_if, ◌>>◌, ◌>>=◌}

-- An exponent of ten that is not negative, or a number of decimal places.
pub data Exponent : Type 0 where
  raised lowered : ℕ → Exponent

pub record Exact : Type 0 where
  pub is_negative : Bool
  pub digits : ℕ
  pub exponent : Exponent

-- `10**n`
unfoldable pub tens : ℕ → ℕ
tens zero = 1
tens (suc n) = 10 * tens n

-- `_decimal_places`
abbrev pub decimal_places : Exponent → ℕ
decimal_places (Exponent.raised n) = 0
decimal_places (Exponent.lowered n) = n

-- `10**shift`, for a shift that is not negative.
unfoldable pub scale_of : Exponent → ℕ → ℕ
unfolding tens
scale_of (Exponent.raised n) places = tens (n + places)
scale_of (Exponent.lowered n) places = tens (places - n)

-- `_as_scaled_int`
unfoldable pub as_scaled_int : Exact → ℕ → Result ℕ
unfolding scale_of
as_scaled_int value places = do
  raise_if (ltb places (decimal_places value.exponent)) Error.symbol_meta_error
  ok (value.digits * scale_of value.exponent places)

unfoldable pub as_scaled_ints : List Exact → ℕ → Result (List ℕ)
unfolding as_scaled_int
as_scaled_ints [] places = ok []
as_scaled_ints (value ∷ values) places = do
  first ← as_scaled_int value places
  rest ← as_scaled_ints values places
  ok (first ∷ rest)

-- `math.gcd`
unfoldable pub gcd_from : ℕ → ℕ → ℕ → ℕ
gcd_from zero a b = a
gcd_from (suc fuel) a b = elim (b == 0) [ true ↦ a | false ↦ gcd_from fuel b (a % b) ]

unfoldable pub gcd : ℕ → ℕ → ℕ
unfolding gcd_from
gcd a b = gcd_from (suc b) a b

-- `reduce(math.gcd, scaled)`, after its first value.
unfoldable pub reduce_gcd : ℕ → List ℕ → ℕ
unfolding gcd
reduce_gcd common [] = common
reduce_gcd common (value ∷ values) = reduce_gcd (gcd common value) values

unfoldable pub most_places : List Exact → ℕ
most_places [] = 0
most_places (value ∷ values) =
    let rest = most_places values in
    if ltb rest (decimal_places value.exponent) then decimal_places value.exponent else rest

-- The digits of the decimal context.
abbrev pub context_digits : ℕ
context_digits = 28

-- How many digits a number has beyond those of the context.
unfoldable pub excess_from : ℕ → ℕ → ℕ
unfolding tens
excess_from zero n = 0
excess_from (suc fuel) n = elim (ltb n (tens context_digits)) [
  | true ↦ 0
  | false ↦ suc (excess_from fuel (n / 10))
]

-- A number rounded to a whole multiple of a unit, half to even.
unfoldable pub rounded_to : ℕ → ℕ → ℕ
rounded_to unit n =
    let below = n / unit in
    let left = n % unit in
    if ltb unit (2 * left) || (2 * left == unit && below % 2 == 1)
    then suc below * unit
    else below * unit

-- The rounding of `scaleb`, in units of the last of the places.
unfoldable pub in_context : ℕ → ℕ
unfolding tens excess_from rounded_to
in_context n = rounded_to (tens (excess_from n n)) n

-- `normalize` and plain notation: no trailing zeros after the point.
unfoldable pub plain_notation : ℕ → ℕ → Exact
plain_notation zero digits = record {
  is_negative = false;
  digits = digits;
  exponent = Exponent.raised 0;
}
plain_notation (suc places) digits = elim (digits % 10 == 0) [
  | true ↦ plain_notation places (digits / 10)
  | false ↦ record {
    is_negative = false;
    digits = digits;
    exponent = Exponent.lowered (suc places);
  }
]

unfoldable pub grid_of : List ℕ → ℕ → Result Exact
unfolding reduce_gcd plain_notation in_context
grid_of [] places = err Error.symbol_meta_error
grid_of (first ∷ rest) places = ok (plain_notation places (in_context (reduce_gcd first rest)))

abbrev pub is_nonpositive : Exact → Bool
is_nonpositive value = value.is_negative || value.digits == 0

-- `decimal_gcd`
unfoldable pub decimal_gcd : List Exact → Result Exact
unfolding most_places as_scaled_ints grid_of
decimal_gcd values = do
  raise_if (any is_nonpositive values) Error.symbol_meta_error
  scaled ← as_scaled_ints values (most_places values)
  grid_of scaled (most_places values)
