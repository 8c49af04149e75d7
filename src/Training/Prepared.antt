-- ===== src/Training/Prepared.antt =====
-- The two encodings of a column in the tables that training/scripts/preprocess.py writes.
use fraud_ml_platform.Shared.{
  ℕ, String, append_text, ◌≡◌, refl, sym, ap, ◌∙◌, ◌≢◌, inl, inr, some, List, [], ◌∷◌, ◌++◌, map,
  arith, str_eq_iff, length, All, ℤ, ok, Result-cases, raise≢ok,
}
use fraud_ml_platform.Training.Encoder.{
  Column, categories, lookup, build_categorical_encoder, encode, apply_categorical_encoder,
}
use fraud_ml_platform.Training.Prepare.{
  PrepColumn, objects, of_categories, integers, others, pick, index_rows, row_order, first_rows,
  rows_behind, text_columns, obj_cols, PrepFiles, sorted_table, full_table, prepare,
}
use fraud_ml_platform.Training.Preprocess.{train_end, temporal_split}

-- The names of the columns of texts are different.
abbrev pub IsNamed : List (String × Column) → Type 0
IsNamed [] = Unit
IsNamed ((name, _) ∷ df) = All (λ c. c.0 ≢ name) df × IsNamed df

-- Each column is looked up under its name.
lookup-later :
    {A : Type 0} (name : String) (a : A) (table rest : List (String × A))
    → All (λ c. c.0 ≢ name) rest
    → All (λ c. lookup c.0 table ≡ some c.1) rest
    → All (λ c. lookup c.0 ((name, a) ∷ table) ≡ some c.1) rest
lookup-later name a table [] other h = tt
lookup-later name a table (c ∷ rest) other h =
    (ground (arith, other.0, h.0, str_eq_iff name c.0), lookup-later name a table rest other.1 h.1)

lookup-all :
    (table : List (String × Column)) → IsNamed table → All (λ c. lookup c.0 table ≡ some c.1) table
lookup-all [] h = tt
lookup-all ((name, c) ∷ table) h = (
  ground (arith, str_eq_iff name name),
  lookup-later name c table table h.0 (lookup-all table h.1),
)

abbrev encoder_of : List (String × Column) → List (String × List String)
encoder_of table = map (λ c. (c.0, categories c.1)) table

abbrev pub encoded_of : List (String × Column) → List (String × List ℤ)
encoded_of table = map (λ c. (append_text c.0 "_encoded", map (encode (categories c.1)) c.1)) table

build-encoder_of :
    (table cols : List (String × Column))
    → All (λ c. lookup c.0 table ≡ some c.1) cols
    → build_categorical_encoder table (map (λ c. c.0) cols) ≡ ok (encoder_of cols)
unfolding build_categorical_encoder
build-encoder_of table [] h = refl
build-encoder_of table (c ∷ cols) h =
    rw (build_categorical_encoder, h.0) (rw (build-encoder_of table cols h.1) refl)

apply-encoded_of :
    (table cols : List (String × Column))
    → All (λ c. lookup c.0 table ≡ some c.1) cols
    → apply_categorical_encoder table (encoder_of cols) ≡ encoded_of cols
unfolding apply_categorical_encoder
apply-encoded_of table [] h = refl
apply-encoded_of table (c ∷ cols) h =
    rw (apply_categorical_encoder, h.0) (rw (apply-encoded_of table cols h.1) refl)

abbrev pub in_order : List ℕ → List (String × Column) → List (String × Column)
in_order dt table = map (λ c. (c.0, pick (row_order dt) c.1)) table

in_order-other :
    (name : String) (dt : List ℕ) (table : List (String × Column))
    → All (λ c. c.0 ≢ name) table
    → All (λ c. c.0 ≢ name) (in_order dt table)
in_order-other name dt [] h = tt
in_order-other name dt (c ∷ table) h = (h.0, in_order-other name dt table h.1)

in_order-IsNamed :
    (dt : List ℕ) (table : List (String × Column)) → IsNamed table → IsNamed (in_order dt table)
in_order-IsNamed dt [] h = tt
in_order-IsNamed dt ((name, c) ∷ table) h =
    (in_order-other name dt table h.0, in_order-IsNamed dt table h.1)

module _ {V : Type 0} where
  -- The object columns, with their names.
  abbrev pub object_table : List (String × PrepColumn V) → List (String × Column)
  object_table [] = []
  object_table ((name, objects c) ∷ df) = (name, c) ∷ object_table df
  object_table ((name, _) ∷ df) = object_table df

  -- No column is of type "category" yet.
  abbrev pub IsRaw : List (String × PrepColumn V) → Type 0
  IsRaw [] = Unit
  IsRaw ((name, of_categories cats c) ∷ df) = ⊥
  IsRaw ((name, _) ∷ df) = IsRaw df

  text_columns-sorted_table :
      (df : List (String × PrepColumn V)) (dt : List ℕ)
      → IsRaw df
      → text_columns (sorted_table df dt) ≡ in_order dt (object_table df)
  text_columns-sorted_table [] dt raw = refl
  text_columns-sorted_table ((name, objects c) ∷ df) dt raw =
      ap (λ l. (name, pick (row_order dt) c) ∷ l) (text_columns-sorted_table df dt raw)
  text_columns-sorted_table ((name, of_categories cats c) ∷ df) dt raw = absurd raw
  text_columns-sorted_table ((name, integers c) ∷ df) dt raw = text_columns-sorted_table df dt raw
  text_columns-sorted_table ((name, others c) ∷ df) dt raw = text_columns-sorted_table df dt raw

  obj_cols-in_order :
      (df : List (String × PrepColumn V)) (dt : List ℕ)
      → obj_cols df ≡ map (λ c. c.0) (in_order dt (object_table df))
  obj_cols-in_order [] dt = refl
  obj_cols-in_order ((name, objects c) ∷ df) dt = ap (λ l. name ∷ l) (obj_cols-in_order df dt)
  obj_cols-in_order ((name, of_categories cats c) ∷ df) dt = obj_cols-in_order df dt
  obj_cols-in_order ((name, integers c) ∷ df) dt = obj_cols-in_order df dt
  obj_cols-in_order ((name, others c) ∷ df) dt = obj_cols-in_order df dt

  -- What a run writes.
  pub record IsWritten (df : List (String × PrepColumn V)) (dt : List ℕ) (files : PrepFiles V)
      : Type 0 where
    pub full : List (String × PrepColumn V)
    pub is_full :
        full
        ≡ sorted_table df dt
          ++ map (λ c. (c.0, integers c.1)) (encoded_of (in_order dt (object_table df)))
    pub train : files.train ≡ some (map (λ c. (c.0, first_rows (train_end (length dt)) c.1)) full)
    pub test : files.test ≡ some (map (λ c. (c.0, rows_behind (train_end (length dt)) c.1)) full)

  pub prepare-IsWritten :
      (df : List (String × PrepColumn V)) (dt : List ℕ) (files files' : PrepFiles V)
      → IsRaw df
      → IsNamed (object_table df)
      → prepare df dt files ≡ (ok tt, files')
      → IsWritten df dt files'
  unfolding prepare
  prepare-IsWritten df dt files files' raw named h =
      let table = in_order dt (object_table df) in
      let found = lookup-all table (in_order-IsNamed dt (object_table df) named) in
      let texts = text_columns-sorted_table df dt raw in
      let built : build_categorical_encoder (text_columns (sorted_table df dt)) (obj_cols df)
          ≡ ok (encoder_of table) =
        ap (λ t. build_categorical_encoder t (obj_cols df)) texts
        ∙ ap (build_categorical_encoder table) (obj_cols-in_order df dt)
        ∙ build-encoder_of table table found in
      let applied : apply_categorical_encoder (text_columns (sorted_table df dt)) (encoder_of table)
          ≡ encoded_of table =
        ap (λ t. apply_categorical_encoder t (encoder_of table)) texts
        ∙ apply-encoded_of table table found in
      elim (Result-cases (temporal_split (index_rows 0 dt))) [
        | inr (e, t) ↦ absurd (raise≢ok (ap (λ p. p.0) (rw (prepare, built, t) at h)))
        | inl (parts, t) ↦
            let same = ap (λ p. p.1) (rw (prepare, built, t) at h) in
            record {
              full = full_table (sorted_table df dt) (encoder_of table);
              is_full = ap (λ l. sorted_table df dt ++ map (λ c. (c.0, integers c.1)) l) applied;
              train = ap (λ f. f.train) (sym same);
              test = ap (λ f. f.test) (sym same);
            }
      ]
