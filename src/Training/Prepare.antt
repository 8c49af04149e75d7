-- ===== src/Training/Prepare.antt =====
-- training/scripts/preprocess.py, `main` from the object columns on: the table whose features have been
-- added becomes the encoder, the train and test tables and the list of features.
use fraud_ml_platform.Shared.{
  ℕ, zero, suc, ◌+◌, String, not, Option, none, some, List, [], ◌∷◌, ◌++◌, map, str_eq, length,
  take, drop, keep_if, any_of, ℤ, Result, ok, raise,
}
use fraud_ml_platform.Training.Encoder.{
  Column, categories, build_categorical_encoder, apply_categorical_encoder,
}
use fraud_ml_platform.Training.Preprocess.{Row, train_end, sort_rows, temporal_split}

-- A column: of type object, of type "category" with its categories, of codes, or of other values.
pub data PrepColumn (V : Type 0) : Type 0 where
  objects : Column → PrepColumn V
  of_categories : List String → Column → PrepColumn V
  integers : List ℤ → PrepColumn V
  others : List V → PrepColumn V

abbrev pub nth : {A : Type 0} → ℕ → List A → Option A
nth i [] = none
nth zero (x ∷ xs) = some x
nth (suc i) (x ∷ xs) = nth i xs

-- The rows at these places.
abbrev pub pick : {A : Type 0} → List ℕ → List A → List A
pick [] xs = []
pick (i ∷ idx) xs = elim (nth i xs) [ some x ↦ x ∷ pick idx xs | none ↦ pick idx xs ]

-- A row for each time, with its place.
abbrev pub index_rows : ℕ → List ℕ → List (Row ℕ)
index_rows i [] = []
index_rows i (t ∷ dt) = record { transaction_dt = t; content = i } ∷ index_rows (i + 1) dt

abbrev pub row_order : List ℕ → List ℕ
row_order dt = map (λ r. r.content) (sort_rows (index_rows 0 dt))

module _ {V : Type 0} where
  abbrev pub reorder : List ℕ → PrepColumn V → PrepColumn V
  reorder idx (objects c) = objects (pick idx c)
  reorder idx (of_categories cats c) = of_categories cats (pick idx c)
  reorder idx (integers c) = integers (pick idx c)
  reorder idx (others c) = others (pick idx c)

  abbrev pub first_rows : ℕ → PrepColumn V → PrepColumn V
  first_rows n (objects c) = objects (take n c)
  first_rows n (of_categories cats c) = of_categories cats (take n c)
  first_rows n (integers c) = integers (take n c)
  first_rows n (others c) = others (take n c)

  abbrev pub rows_behind : ℕ → PrepColumn V → PrepColumn V
  rows_behind n (objects c) = objects (drop n c)
  rows_behind n (of_categories cats c) = of_categories cats (drop n c)
  rows_behind n (integers c) = integers (drop n c)
  rows_behind n (others c) = others (drop n c)

  -- The loop over `obj_cols`.
  abbrev pub to_categorical : PrepColumn V → PrepColumn V
  to_categorical (objects c) = of_categories (categories c) c
  to_categorical column = column

  -- The columns of texts, which have been the object columns.
  abbrev pub text_columns : List (String × PrepColumn V) → List (String × Column)
  text_columns [] = []
  text_columns ((name, of_categories cats c) ∷ df) = (name, c) ∷ text_columns df
  text_columns ((name, _) ∷ df) = text_columns df

  abbrev pub obj_cols : List (String × PrepColumn V) → List String
  obj_cols [] = []
  obj_cols ((name, objects c) ∷ df) = name ∷ obj_cols df
  obj_cols ((name, _) ∷ df) = obj_cols df

-- The files that are written; of feature_list.json the names, without the dtypes.
pub record PrepFiles (V : Type 0) : Type 0 where
  pub encoder : Option (List (String × List String))
  pub train : Option (List (String × PrepColumn V))
  pub test : Option (List (String × PrepColumn V))
  pub feature_list : Option (List String)

abbrev pub audit_cols : List String
audit_cols = "TransactionID" ∷ "TransactionDT" ∷ "isFraud" ∷ []

module _ {V : Type 0} where
  abbrev pub sorted_table : List (String × PrepColumn V) → List ℕ → List (String × PrepColumn V)
  sorted_table df dt = map (λ c. (c.0, reorder (row_order dt) (to_categorical c.1))) df

  -- The table with the columns of the encoder behind it; their names are new.
  abbrev pub full_table :
      List (String × PrepColumn V) → List (String × List String) → List (String × PrepColumn V)
  full_table df encoder =
      df ++ map (λ c. (c.0, integers c.1)) (apply_categorical_encoder (text_columns df) encoder)

  -- `dt` is the column TransactionDT. The table of texts has no column of type "category" before.
  unfoldable pub prepare :
      List (String × PrepColumn V) → List ℕ → PrepFiles V → Result (Unit {0}) × PrepFiles V
  prepare df dt files =
      let sorted = sorted_table df dt in
      elim (build_categorical_encoder (text_columns sorted) (obj_cols df)) [
        | raise e ↦ (raise e, files)
        | ok encoder ↦
            let full = full_table sorted encoder in
            let n = train_end (length dt) in
            let encoded : PrepFiles V = record files { encoder = some encoder } in
            elim (temporal_split (index_rows 0 dt)) [
              | raise e ↦ (raise e, encoded)
              | ok _ ↦ (
                ok tt,
                record encoded {
                  train = some (map (λ c. (c.0, first_rows n c.1)) full);
                  test = some (map (λ c. (c.0, rows_behind n c.1)) full);
                  feature_list = some (
                      keep_if (λ c. not (any_of (λ a. str_eq a c) audit_cols))
                        (map (λ c. c.0) full));
                },
              )
            ]
      ]
