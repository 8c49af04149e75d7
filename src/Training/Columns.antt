-- ===== src/Training/Columns.antt =====
-- training/src/features.py: the columns that are dropped for missing values, and the two features of
-- an amount. A column is its name with, for each row, whether the value is missing.
use fraud_ml_platform.Shared.{
  ◌+◌, String, ◌≡◌, refl, Bool, not, List, [], ◌∷◌, map, arith, length, keep_if, FloatOps,
}

module _ {F : Type 0} (ops : FloatOps F) where
  abbrev pub missing_frac : List Bool → F
  missing_frac nulls =
      ops.fdiv (ops.of_nat (length (keep_if (λ b. b) nulls))) (ops.of_nat (length nulls))

  -- The columns that stay, and the names of those that go.
  unfoldable pub drop_high_missing :
      F → List (String × List Bool) → List (String × List Bool) × List String
  drop_high_missing threshold df = (
    keep_if (λ c. not (ops.flt threshold (missing_frac c.1))) df,
    map (λ c. c.0) (keep_if (λ c. ops.flt threshold (missing_frac c.1)) df),
  )

  -- TransactionAmt_log and TransactionAmt_decimal, with numpy's log1p and floor.
  unfoldable pub engineer_amount_features : (F → F) → (F → F) → F → F × F
  engineer_amount_features log1p floor amount = (log1p amount, ops.fsub amount (floor amount))

  -- Each column stays or is named, and not both.
  pub drop_high_missing-partition :
      (threshold : F) (df : List (String × List Bool))
      → let (kept, dropped) = drop_high_missing threshold df in
        length kept + length dropped ≡ length df
  unfolding drop_high_missing
  drop_high_missing-partition threshold [] = refl
  drop_high_missing-partition threshold (c ∷ df) =
      ground (arith, drop_high_missing-partition threshold df)
