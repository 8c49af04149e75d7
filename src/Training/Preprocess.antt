-- ===== src/Training/Preprocess.antt =====
-- training/scripts/preprocess.py: the rows in the order of TransactionDT, cut into the first four
-- fifths, for training, and the rest, for tests.
use Prim.Native.Nat.{min, max}
use fraud_ml_platform.Shared.{
  ℕ, ◌*◌, ◌/◌, Bool, false, Option, none, some, List, [], ◌∷◌, ltb, if◌then◌else◌, length, take,
  drop, assertion_error, Result, ok, ensure, ◌>>◌,
}

pub record Row (A : Type 0) : Type 0 where
  pub transaction_dt : ℕ
  pub content : A

-- `x < y`, false with a NaN.
abbrev pub is_before : Option ℕ → Option ℕ → Bool
is_before (some x) (some y) = ltb x y
is_before _ _ = false

-- int(n * 0.8) is four fifths of n, rounded down: the float's error is less than the fifth that a
-- product that is no integer is away from the next one.
abbrev pub train_end : ℕ → ℕ
train_end n = n * 4 / 5

module _ {A : Type 0} where
  -- sort_values("TransactionDT")
  unfoldable pub insert_row : Row A → List (Row A) → List (Row A)
  insert_row r [] = r ∷ []
  insert_row r (x ∷ xs) =
      if ltb x.transaction_dt r.transaction_dt then x ∷ insert_row r xs else r ∷ x ∷ xs

  unfoldable pub sort_rows : List (Row A) → List (Row A)
  sort_rows [] = []
  sort_rows (r ∷ rs) = insert_row r (sort_rows rs)

  -- The maximum and the minimum of a column; NaN, here none, if there are no rows.
  abbrev pub max_dt : List (Row A) → Option ℕ
  max_dt [] = none
  max_dt (r ∷ rs) = elim (max_dt rs) [
    | none ↦ some r.transaction_dt
    | some m ↦ some (max r.transaction_dt m)
  ]

  abbrev pub min_dt : List (Row A) → Option ℕ
  min_dt [] = none
  min_dt (r ∷ rs) = elim (min_dt rs) [
    | none ↦ some r.transaction_dt
    | some m ↦ some (min r.transaction_dt m)
  ]

  unfoldable pub temporal_split : List (Row A) → Result (List (Row A) × List (Row A))
  temporal_split rows =
      let sorted = sort_rows rows in
      let train_rows = take (train_end (length sorted)) sorted in
      let test_rows = drop (train_end (length sorted)) sorted in
      ensure (is_before (max_dt train_rows) (min_dt test_rows)) assertion_error
      >> ok (train_rows, test_rows)
