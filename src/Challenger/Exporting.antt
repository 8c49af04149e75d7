-- ===== src/Challenger/Exporting.antt =====
-- monitoring/scripts/train_challenger.py: `_export_onnx`.
use fraud_ml_platform.Shared.{
  String, some, List, [], ◌∷◌, if◌then◌else◌, length, FloatOps, Exception, runtime_error,
  import_error, Result, ok, raise, ◌>>=◌,
}
use fraud_ml_platform.Challenger.Frames.{select}
use fraud_ml_platform.Challenger.Graph.{OnnxModel, strip_model}
use fraud_ml_platform.Challenger.Models.{Lightgbm, OnnxTools, Disk}
use fraud_ml_platform.Metrics.Thresholds.{max_of}
use fraud_ml_platform.Training.Categoricals.{TableColumn, Mappings, encode_categoricals}
use fraud_ml_platform.Tuning.Study.{RunEnd, finished, stopped}

-- `except ImportError`: a missing package is logged, anything else is raised.
abbrev pub caught : Exception → RunEnd
caught import_error = finished
caught e = stopped e

module _ {F : Type 0} (ops : FloatOps F) where
  -- The literal 0.01
  abbrev pub tolerance : F
  tolerance = ops.fdiv (ops.of_nat 1) (ops.of_nat 100)

  -- `np.abs(probs_lgbm - probs_onnx)`, on two arrays with a number for each row
  abbrev pub differences : List F → List F → List F
  differences (x ∷ xs) (y ∷ ys) = ops.fabs (ops.fsub x y) ∷ differences xs ys
  differences _ _ = []

  module _ {V M A T : Type 0} (lightgbm : Lightgbm V F M) (tools : OnnxTools V F M A T) where
    abbrev pub with_onnx : OnnxModel A T → Disk F M A T → Disk F M A T
    with_onnx m disk = record disk { onnx = some m }

    -- The two reports.
    abbrev pub with_reports : OnnxModel A T → List String → F → Disk F M A T → Disk F M A T
    with_reports m feature_cols max_diff disk = record disk {
      parity_report = some (record {
        max_diff = max_diff;
        onnx_sha256 = tools.sha256 m;
        passed = ops.flt max_diff tolerance;
      });
      feature_order = some feature_cols;
    }

    -- The model that is written.
    unfoldable pub converted : M → List String → Result (OnnxModel A T)
    converted model feature_cols =
        tools.convert_lightgbm model (length feature_cols) >>= λ onnx_model.
        strip_model tools.int64_vector tools.float_pairs onnx_model

    -- The greatest difference between the model and its ONNX form, on the sample.
    unfoldable pub measure :
        M → OnnxModel A T → List String → Mappings → List (String × TableColumn V) → Result F
    measure model m feature_cols cat_mappings sample_raw =
        select feature_cols sample_raw >>= λ sample.
        let (sample_enc, _) = encode_categoricals sample (some cat_mappings) in
        tools.run_session m sample_enc >>= λ probs_onnx.
        max_of ops (differences (lightgbm.predict_proba model sample_enc) probs_onnx)

    -- The end of the export, when the difference is known.
    unfoldable pub report : OnnxModel A T → List String → F → Disk F M A T → RunEnd × Disk F M A T
    report m feature_cols max_diff disk = (
      if ops.fle tolerance max_diff then stopped runtime_error else finished,
      with_reports m feature_cols max_diff disk,
    )

    -- `sample_raw` is the first 1000 rows of the test table.
    unfoldable pub export_onnx :
        M
        → List String
        → Mappings
        → List (String × TableColumn V)
        → Disk F M A T
        → RunEnd × Disk F M A T
    export_onnx model feature_cols cat_mappings sample_raw disk =
        elim (converted model feature_cols) [
          | raise e ↦ (caught e, disk)
          | ok m ↦ elim (measure model m feature_cols cat_mappings sample_raw) [
            | raise e ↦ (caught e, with_onnx m disk)
            | ok max_diff ↦ report m feature_cols max_diff (with_onnx m disk)
          ]
        ]
