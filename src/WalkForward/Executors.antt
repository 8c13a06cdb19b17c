-- ===== src/WalkForward/Executors.antt =====
-- `InferredExecutor` and `BookExecutor` as the backends of a run.
use perpetuals_carry_strateg.Base.{ℕ, Bool, List, [], ◌∷◌}
use perpetuals_carry_strateg.Base.Result.{Result, ok, ◌>>=◌}
use perpetuals_carry_strateg.Number.{Number, Conversions}
use perpetuals_carry_strateg.Fees.{Market}
use perpetuals_carry_strateg.Accounting.State.{Fill}
use perpetuals_carry_strateg.Execution.{BookSnapshot, OrderSide, Walk, inferred_fills, book_fills}
use perpetuals_carry_strateg.WalkForward.{ExecutionMode, Executor}

abbrev pub two_fills : {D : Type 0} → Result (Fill D × Fill D) → Result (List (Fill D))
two_fills x = x >>= λ pair. ok (pair.0 ∷ pair.1 ∷ [])

module _ {D F : Type 0} ⦃d : Number D⦄ ⦃v : Conversions D F⦄ where
  -- `InferredExecutor`
  unfoldable pub inferred_executor : ⦃n : Number F⦄ → Executor D F
  unfolding inferred_fills
  inferred_executor = record {
    mode = ExecutionMode.inferred;
    fills = λ event quantity opening. two_fills (inferred_fills event quantity opening);
  }

  -- `BookExecutor`, of a provider of snapshots, the simulator and `math.isclose`
  unfoldable pub book_executor :
      {Book : Type 0}
      → (ℕ → Market → BookSnapshot Book)
      → (Book → OrderSide → F → Walk F)
      → (F → F → Bool)
      → Executor D F
  unfolding book_fills
  book_executor provider simulate is_close = record {
    mode = ExecutionMode.book;
    fills = λ event quantity opening.
        two_fills (book_fills provider simulate is_close event quantity opening);
  }
