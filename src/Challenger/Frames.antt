-- ===== src/Challenger/Frames.antt =====
-- monitoring/scripts/train_challenger.py: the tables that the challenger is trained and tested on.
-- A table is its columns with their names.
use fraud_ml_platform.Shared.{
  ℕ, ◌*◌, ◌/◌, String, Bool, not, ◌||◌, none, some, List, [], ◌∷◌, ◌++◌, map, str_eq, if◌then◌else◌,
  length, take, drop, keep_if, codes, key_error, Result, ok, raise, ◌>>=◌,
}
use fraud_ml_platform.Training.Categoricals.{
  TableColumn, Encoded, codes_of, unchanged, Mappings, encode_categoricals,
}

module _ {A : Type 0} where
  -- `df.columns`
  abbrev pub columns : List (String × A) → List String
  columns df = map (λ c. c.0) df

  -- `df[col]`
  unfoldable pub column : String → List (String × A) → Result A
  column name [] = raise key_error
  column name ((col, values) ∷ df) = if str_eq col name then ok values else column name df

  -- `df[cols]`
  unfoldable pub select : List String → List (String × A) → Result (List (String × A))
  select [] df = ok []
  select (name ∷ names) df =
      column name df >>= λ values. select names df >>= λ rest. ok ((name, values) ∷ rest)

module _ {V : Type 0} where
  abbrev pub n_values : Encoded V → ℕ
  n_values (codes_of codes) = length codes
  n_values (unchanged values) = length values

  -- `len(df)`
  abbrev pub n_rows : List (String × Encoded V) → ℕ
  n_rows [] = 0
  n_rows ((_, values) ∷ df) = n_values values

  abbrev pub first_values : ℕ → Encoded V → Encoded V
  first_values n (codes_of codes) = codes_of (take n codes)
  first_values n (unchanged values) = unchanged (take n values)

  abbrev pub last_values : ℕ → Encoded V → Encoded V
  last_values n (codes_of codes) = codes_of (drop n codes)
  last_values n (unchanged values) = unchanged (drop n values)

  -- `df.iloc[:n]`
  abbrev pub rows_before : ℕ → List (String × Encoded V) → List (String × Encoded V)
  rows_before n df = map (λ c. (c.0, first_values n c.1)) df

  -- `df.iloc[n:]`
  abbrev pub rows_from : ℕ → List (String × Encoded V) → List (String × Encoded V)
  rows_from n df = map (λ c. (c.0, last_values n c.1)) df

-- `[c for c in df.columns if c not in ("isFraud", "TransactionID")]`
abbrev pub is_feature : String → Bool
is_feature c = not (str_eq c "isFraud" || str_eq c "TransactionID")

unfoldable pub challenger_features : {V : Type 0} → List (String × TableColumn V) → List String
challenger_features df = keep_if is_feature (columns df)

-- int(n * 0.9) is nine tenths of n, rounded down: the float's error is less than the tenth that a
-- product that is no integer is away from the next one.
abbrev pub val_start_of : ℕ → ℕ
val_start_of n = n * 9 / 10

-- The rows to fit on, the later ones to validate on and the ones to test on, each with its labels.
pub record Data (V : Type 0) : Type 0 where
  pub X_train : List (String × Encoded V)
  pub y_train : Encoded V
  pub X_val : List (String × Encoded V)
  pub y_val : Encoded V
  pub X_test : List (String × Encoded V)
  pub y_test : Encoded V
  pub feature_cols : List String

module _ {V : Type 0} where
  -- What both scripts do with the encoded tables.
  unfoldable pub divide :
      List String → List (String × Encoded V) → List (String × Encoded V) → Result (Data V)
  divide feature_cols train_enc test_enc =
      let val_start = val_start_of (n_rows train_enc) in
      let tr = rows_before val_start train_enc in
      let val = rows_from val_start train_enc in
      select feature_cols tr >>= λ X_train. column "isFraud" tr >>= λ y_train.
      select feature_cols val >>= λ X_val. column "isFraud" val >>= λ y_val.
      select feature_cols test_enc >>= λ X_test. column "isFraud" test_enc >>= λ y_test.
      ok (record {
        X_train = X_train;
        y_train = y_train;
        X_val = X_val;
        y_val = y_val;
        X_test = X_test;
        y_test = y_test;
        feature_cols = feature_cols;
      })

  -- `load_data`: the data, and the mappings that it writes.
  unfoldable pub load_data :
      List (String × TableColumn V) → List (String × TableColumn V) → Result (Data V × Mappings)
  load_data train_df test_df =
      let feature_cols = challenger_features train_df in
      let cols = feature_cols ++ "isFraud" ∷ [] in
      select cols train_df >>= λ train_part. select cols test_df >>= λ test_part.
      let (train_enc, cat_mappings) = encode_categoricals train_part none in
      let (test_enc, _) = encode_categoricals test_part (some cat_mappings) in
      divide feature_cols train_enc test_enc >>= λ parts. ok (parts, cat_mappings)

  -- The tables of recompute_challenger_metrics.py, with the columns of the test table and the
  -- mappings of the training.
  unfoldable pub reload_data :
      Mappings → List (String × TableColumn V) → List (String × TableColumn V) → Result (Data V)
  reload_data cat_mappings train_df test_df =
      let feature_cols = challenger_features test_df in
      let cols = feature_cols ++ "isFraud" ∷ [] in
      select cols train_df >>= λ train_part. select cols test_df >>= λ test_part.
      let (train_enc, _) = encode_categoricals train_part (some cat_mappings) in
      let (test_enc, _) = encode_categoricals test_part (some cat_mappings) in
      divide feature_cols train_enc test_enc
