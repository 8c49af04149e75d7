-- ===== src/Training/Tables.antt =====
-- A table of five transactions, and the theorems at it.
use mathlib.Core.List.Memᴰ
use fraud_ml_platform.Shared.{ℕ, String, ◌≡◌, refl, none, some, List, [], ◌∷◌, take, drop, ok}
use fraud_ml_platform.Training.Agreed.{IsEncoded, prepare-IsEncoded}
use fraud_ml_platform.Training.Encoder.{
  Column, build_categorical_encoder, apply_categorical_encoder,
}
use fraud_ml_platform.Training.Prepare.{
  PrepColumn, objects, others, pick, row_order, PrepFiles, prepare,
}
use fraud_ml_platform.Training.Preprocess.{insert_row, sort_rows, temporal_split}

-- The rows are not in the order of their times.
abbrev times : List ℕ
times = 30 ∷ 10 ∷ 50 ∷ 20 ∷ 40 ∷ []

abbrev brands : Column
brands = some "visa" ∷ none ∷ some "amex" ∷ some "visa" ∷ some "jcb" ∷ []

abbrev table_of_five : List (String × PrepColumn ℕ)
table_of_five =
    ("TransactionDT", others times) ∷ ("card4", objects brands) ∷ ("amount", others times) ∷ []

abbrev no_files : PrepFiles ℕ
no_files = record { encoder = none; train = none; test = none; feature_list = none }

abbrev written : PrepFiles ℕ
written = (prepare table_of_five times no_files).1

runs : prepare table_of_five times no_files ≡ (ok tt, written)
unfolding prepare build_categorical_encoder apply_categorical_encoder temporal_split sort_rows
    insert_row
runs = refl

-- The features are the columns without the time, and the encoded column.
features : written.feature_list ≡ some ("card4" ∷ "amount" ∷ "card4_encoded" ∷ [])
unfolding prepare build_categorical_encoder apply_categorical_encoder temporal_split sort_rows
    insert_row
features = refl

prepare-IsEncoded_example :
    IsEncoded "card4" brands (take 4 (pick (row_order times) brands)) written.train
    × IsEncoded "card4" brands (drop 4 (pick (row_order times) brands)) written.test
prepare-IsEncoded_example =
    prepare-IsEncoded table_of_five times no_files written "card4" brands tt (tt, tt)
      (Memᴰ.tail (Memᴰ.head refl)) refl refl runs
