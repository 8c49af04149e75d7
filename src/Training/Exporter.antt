-- ===== src/Training/Exporter.antt =====
-- training/src/export.py and training/scripts/export_onnx.py: the conversion of the champion, with the
-- names of its features, and the files of the export. The converter, the session and the file's size
-- are parameters.
use fraud_ml_platform.Shared.{
  ℕ, zero, suc, ◌+◌, String, append_text, ◌≡◌, refl, Bool, Option, none, some, List, [], ◌∷◌,
  if◌then◌else◌, length, FloatOps, file_not_found, assertion_error, Result, ok, raise, ◌>>=◌,
}
use fraud_ml_platform.Training.Export.{Graph, remove_zipmap, parity_check}

abbrev pub feature_names : (ℕ → String) → ℕ → ℕ → List String
feature_names show i zero = []
feature_names show i (suc n) = append_text "f" (show i) ∷ feature_names show (i + 1) n

-- The files of the export; the booster's own names of its features stand beside them.
pub record ExportFiles (F T : Type 0) : Type 0 where
  pub booster_names : List String
  pub onnx : Option (Graph T)
  pub feature_order : Option (List String)
  pub parity : Option (F × F × ℕ)

module _ {F T : Type 0} (ops : FloatOps F) (float_pairs : T) (show : ℕ → String)
    (convert_xgboost : List String → ℕ → Result (Graph T)) where
  -- `export_onnx`; `finally` gives the names back in every case.
  unfoldable pub export_onnx : List String → ExportFiles F T → Result (Unit {0}) × ExportFiles F T
  export_onnx feature_cols files =
      let original_names = files.booster_names in
      let renamed : ExportFiles F T = record files {
        booster_names = feature_names show 0 (length feature_cols);
      } in
      elim (convert_xgboost renamed.booster_names (length feature_cols) >>= λ onnx_model.
      remove_zipmap float_pairs onnx_model) [
        | raise e ↦ (raise e, record renamed { booster_names = original_names })
        | ok onnx_model ↦
            (ok tt, record renamed { onnx = some onnx_model; booster_names = original_names })
      ]

  -- `main`, from the features of results.json on. `size_ok` is the test of the file's size, `diffs`
  -- the greatest and the mean difference on the first 1000 rows.
  unfoldable pub export_main :
      (Graph T → Bool)
      → (Graph T → F × F)
      → F
      → List String
      → ExportFiles F T
      → Result (Unit {0}) × ExportFiles F T
  export_main size_ok diffs tolerance feature_cols files =
      let (result, exported) = export_onnx feature_cols files in
      elim result [
        | raise e ↦ (raise e, exported)
        | ok _ ↦ elim exported.onnx [
          | none ↦ (raise file_not_found, exported)
          | some g ↦
              let ordered : ExportFiles F T = record exported {
                feature_order = some feature_cols;
              } in
              if size_ok g
              then elim (parity_check ops tolerance (diffs g).0 (diffs g).1 1000) [
                | raise e ↦ (raise e, ordered)
                | ok parity ↦ (ok tt, record ordered { parity = some parity })
              ]
              else (raise assertion_error, exported)
        ]
      ]

  -- Whatever happens in the export, the booster has its names again.
  export_onnx-names :
      (feature_cols : List String) (files : ExportFiles F T)
      → (export_onnx feature_cols files).1.booster_names ≡ files.booster_names
  unfolding export_onnx
  export_onnx-names feature_cols files =
      elim (convert_xgboost (feature_names show 0 (length feature_cols)) (length feature_cols)
          >>= λ onnx_model. remove_zipmap float_pairs onnx_model)
        as (λ r.
          (elim r as (λ _. Result (Unit {0}) × ExportFiles F T) [
            | raise e ↦ (raise e, record files { booster_names = files.booster_names })
            | ok onnx_model ↦ (
              ok tt,
              record files { onnx = some onnx_model; booster_names = files.booster_names },
            )
          ]).1.booster_names
          ≡ files.booster_names) [ raise e ↦ refl | ok onnx_model ↦ refl ]
