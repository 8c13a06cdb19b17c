-- ===== src/Base/Result.antt =====
-- The outcome of Python code that may raise: a value, or the class of the exception.
use mathlib.Core.Path.{◌≡◌, refl}
use mathlib.Core.Bool.{Bool, true, false}

-- `ExecutionUnavailable`, `ImpactModelError`, `FundingHistoryError` and `FundingModelUnavailable`
-- are subclasses of `ValueError`; `value_error` is a plain one.
pub data Error : Type 0 where
  value_error execution_unavailable impact_model_error : Error
  funding_history_error funding_model_unavailable type_error stop_iteration : Error
  funding_series_error funding_data_error zero_division_error symbol_meta_error : Error

pub data Result (A : Type 0) : Type 0 where
  err : Error → Result A
  ok : A → Result A

module _ {B : Type 0} where
  infixl 5 ◌>>◌ ◌>>=◌
  -- The rest of a body runs on what came before it, unless that raised.
  abbrev pub ◌>>=◌ : {A : Type 0} → Result A → (A → Result B) → Result B
  err raised >>= rest = err raised
  ok value >>= rest = rest value

  abbrev pub ◌>>◌ : Result (Unit {0}) → Result B → Result B
  checks >> rest = checks >>= (λ _. rest)

-- `if test: raise e`
abbrev pub raise_if : Bool → Error → Result (Unit {0})
raise_if true e = err e
raise_if false e = ok tt

module _ {B : Type 0} {b : B} where
  pub >>=-eq-ok :
      {A : Type 0} (first : Result A) (rest : A → Result B)
      → (first >>= rest) ≡ ok b
      → (value : A) × (first ≡ ok value) × (rest value ≡ ok b)
  >>=-eq-ok (err raised) rest h = cc
  >>=-eq-ok (ok value) rest h = (value, refl, h)

  pub >>-eq-ok :
      (checks : Result (Unit {0})) (rest : Result B)
      → (checks >> rest) ≡ ok b
      → (checks ≡ ok tt) × (rest ≡ ok b)
  >>-eq-ok (err raised) rest h = cc
  >>-eq-ok (ok done) rest h = (refl, h)

  pub raise_if-eq-ok :
      (test : Bool) (e : Error) (rest : Result B)
      → (raise_if test e >> rest) ≡ ok b
      → (test ≡ false) × (rest ≡ ok b)
  raise_if-eq-ok true e rest h = cc
  raise_if-eq-ok false e rest h = (refl, h)

pub ok_injective : {A : Type 0} {a b : A} → ok a ≡ ok b → a ≡ b
ok_injective h = cc
