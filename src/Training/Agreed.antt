-- ===== src/Training/Agreed.antt =====
-- The two encodings of a column, in the train and test tables of training/scripts/preprocess.py.
use mathlib.Core.List.{Memᴰ}
use mathlib.Core.List.Memᴰ
use fraud_ml_platform.Shared.{
  ℕ, zero, suc, String, append_text, ◌≡◌, refl, sym, ap, ◌∙◌, subst, inl, inr, false, Option, some,
  List, [], ◌∷◌, map, length, take, drop, take-map, ℤ, ok,
}
use fraud_ml_platform.Training.Agreement.{code-encode}
use fraud_ml_platform.Training.Categoricals.{code}
use fraud_ml_platform.Training.Encoder.{Column, has_text, drop_missing, categories, encode}
use fraud_ml_platform.Training.Prepare.{
  PrepColumn, objects, of_categories, integers, others, pick, row_order, reorder, first_rows,
  rows_behind, to_categorical, PrepFiles, sorted_table, prepare,
}
use fraud_ml_platform.Training.Prepared.{
  IsNamed, encoded_of, in_order, object_table, IsRaw, prepare-IsWritten,
}
use fraud_ml_platform.Training.Preprocess.{train_end}
use fraud_ml_platform.Training.Reordered.{categories-row_order}

drop-map : {A B : Type 0} (f : A → B) (n : ℕ) (xs : List A) → drop n (map f xs) ≡ map f (drop n xs)
drop-map f zero xs = refl
drop-map f (suc n) [] = refl
drop-map f (suc n) (x ∷ xs) = drop-map f n xs

module _ {V : Type 0} where
  -- A column of numbers under the name of the encoded column.
  abbrev numbers_of : String → List ℤ → String × PrepColumn V
  numbers_of name l = (append_text name "_encoded", integers l)

  abbrev texts_of : String → Column → Column → String × PrepColumn V
  texts_of name c rows = (name, of_categories (categories c) rows)

  object_table-Memᴰ :
      (name : String) (c : Column) (df : List (String × PrepColumn V))
      → Memᴰ (name, objects c) df
      → Memᴰ (name, c) (object_table df)
  object_table-Memᴰ name c [] i = elim i [ ]
  object_table-Memᴰ name c ((name', column) ∷ df) i = elim (Memᴰ.cases_cons i) [
    | inl e ↦ at_head (ap (λ p. p.0) e) column (ap (λ p. p.1) e)
    | inr j ↦ behind column (object_table-Memᴰ name c df j)
  ]
    where
      at_head :
          name ≡ name'
          → (column : PrepColumn V) → objects c ≡ column
          → Memᴰ (name, c) (object_table ((name', column) ∷ df))
      at_head n column e =
          subst (λ (p : String × PrepColumn V). Memᴰ (name, c) (object_table (p ∷ df)))
            (λ i. (n i, e i)) (Memᴰ.head refl)

      behind :
          (column : PrepColumn V)
          → Memᴰ (name, c) (object_table df)
          → Memᴰ (name, c) (object_table ((name', column) ∷ df))
      behind (objects t) j = Memᴰ.tail j
      behind (of_categories cats t) j = j
      behind (integers t) j = j
      behind (others t) j = j

  -- The table has the column's rows with its categories, and the numbers of these rows, which are the
  -- codes that the challenger gives to them.
  abbrev pub IsEncoded : String → Column → Column → Option (List (String × PrepColumn V)) → Type 0
  IsEncoded name c rows file =
      (table : List (String × PrepColumn V)) × (file ≡ some table)
      × Memᴰ (texts_of name c rows) table
      × Memᴰ (numbers_of name (map (code (categories c)) rows)) table

  -- Let the table be one in which no column is of type "category", the object columns have different
  -- names, and the object column `c` under `name` has a row for each time and no text "nan". If the run
  -- returns, then the train table, which has the first four fifths of the rows in the order of their
  -- times, has the column `name` with these rows and the categories of all of `c`, and the column
  -- `<name>_encoded` with the codes that the challenger takes from these categories; and so has the test
  -- table, with the other rows.
  pub prepare-IsEncoded :
      (df : List (String × PrepColumn V)) (dt : List ℕ) (files files' : PrepFiles V) (name : String)
      (c : Column)
      → IsRaw df
      → IsNamed (object_table df)
      → Memᴰ (name, objects c) df
      → length dt ≡ length c
      → has_text (drop_missing c) "nan" ≡ false
      → prepare df dt files ≡ (ok tt, files')
      → IsEncoded name c (take (train_end (length dt)) (pick (row_order dt) c)) files'.train
        × IsEncoded name c (drop (train_end (length dt)) (pick (row_order dt) c)) files'.test
  prepare-IsEncoded df dt files files' name c raw named i size absent h =
      let written = prepare-IsWritten df dt files files' raw named h in
      let n = train_end (length dt) in
      let ordered = pick (row_order dt) c in
      let same = categories-row_order c dt size in
      let first : Memᴰ (texts_of name c ordered) written.full =
        subst (λ t. Memᴰ (texts_of name c ordered) t) (sym written.is_full)
          (Memᴰ.append_left _
            (Memᴰ.map (λ p. (p.0, reorder (row_order dt) (to_categorical p.1))) i)) in
      let second : Memᴰ (numbers_of name (map (encode (categories c)) ordered)) written.full =
        subst (λ t. Memᴰ (numbers_of name (map (encode (categories c)) ordered)) t)
          (sym written.is_full)
          (Memᴰ.append_right (sorted_table df dt) (
            subst
              (λ cats.
                Memᴰ (numbers_of name (map (encode cats) ordered))
                  (map (λ p. (p.0, integers p.1)) (encoded_of (in_order dt (object_table df)))))
              same
              (Memᴰ.map (λ p. (p.0, integers p.1))
                (Memᴰ.map (λ p. (append_text p.0 "_encoded", map (encode (categories p.1)) p.1))
                  (Memᴰ.map (λ p. (p.0, pick (row_order dt) p.1))
                    (object_table-Memᴰ name c df i)))))) in
      (
        (
          map (λ p. (p.0, first_rows n p.1)) written.full,
          written.train,
          Memᴰ.map (λ p. (p.0, first_rows n p.1)) first,
          subst (λ l. Memᴰ (numbers_of name l) (map (λ p. (p.0, first_rows n p.1)) written.full))
              (take-map (encode (categories c)) n ordered
                ∙ sym (code-encode c (take n ordered) absent))
              (Memᴰ.map (λ p. (p.0, first_rows n p.1)) second),
        ),
        (
          map (λ p. (p.0, rows_behind n p.1)) written.full,
          written.test,
          Memᴰ.map (λ p. (p.0, rows_behind n p.1)) first,
          subst (λ l. Memᴰ (numbers_of name l) (map (λ p. (p.0, rows_behind n p.1)) written.full))
              (drop-map (encode (categories c)) n ordered
                ∙ sym (code-encode c (drop n ordered) absent))
              (Memᴰ.map (λ p. (p.0, rows_behind n p.1)) second),
        ),
      )
