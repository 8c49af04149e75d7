-- ===== src/Challenger/Models.antt =====
-- monitoring/scripts/train_challenger.py: what the script calls of LightGBM, optuna and the ONNX
-- tools, as parameters, and the files that it keeps. A dict is the list of its items, in their order.
use fraud_ml_platform.Shared.{ℕ, String, Bool, Option, List, Result}
use fraud_ml_platform.Challenger.Graph.{OnnxModel}
use fraud_ml_platform.Metrics.Scores.{Metrics}
use fraud_ml_platform.Training.Categoricals.{Encoded, Mappings}
use fraud_ml_platform.Tuning.Space.{ParamValue, Params, Suggestion}
use fraud_ml_platform.Tuning.Study.{TrialState, RunEnd}

-- Columns of values V, floats F and trained models M.
pub record Lightgbm (V F M : Type 0) : Type 0 where
  -- `LGBMClassifier(**params).fit(X, y)`
  pub fit : Params F → List (String × Encoded V) → Encoded V → M
  -- The same with rows to validate on, and a stop when 50 rounds bring nothing.
  pub fit_early :
      Params F → List (String × Encoded V) → Encoded V → List (String × Encoded V) → Encoded V → M
  -- `model.predict_proba(X)[:, 1]`
  pub predict_proba : M → List (String × Encoded V) → List F
  -- `Booster(model_file=..).predict(X.values)`, of the model that the file has been saved from
  pub booster_predict : M → List (String × Encoded V) → List F
  -- `pd.concat` of two tables and of two columns, and a column's labels
  pub concat : List (String × Encoded V) → List (String × Encoded V) → List (String × Encoded V)
  pub concat_column : Encoded V → Encoded V → Encoded V
  pub labels : Encoded V → List ℕ

-- A study is kept in a file of its own. `optimize` is given the objective of the run.
pub record Optuna (F : Type 0) : Type 0 where
  pub optimize :
      ((String → Suggestion F → ParamValue F) → F) → ℕ → List TrialState → RunEnd × List TrialState
  -- `study.best_params` and `study.best_value`; without a completed trial they raise.
  pub best : List TrialState → Result (Params F × F)

-- onnxmltools, which may be missing, a model file's SHA-256, and a session's probabilities.
pub record OnnxTools (V F M A T : Type 0) : Type 0 where
  pub convert_lightgbm : M → ℕ → Result (OnnxModel A T)
  pub sha256 : OnnxModel A T → String
  pub run_session : OnnxModel A T → List (String × Encoded V) → Result (List F)
  pub int64_vector : T
  pub float_pairs : T

pub record ParityReport (F : Type 0) : Type 0 where
  pub max_diff : F
  pub onnx_sha256 : String
  pub passed : Bool

-- The study and the files of the challenger's directory.
pub record Disk (F M A T : Type 0) : Type 0 where
  pub study : List TrialState
  pub category_mappings : Option Mappings
  pub best_params : Option (Params F)
  pub final_model : Option M
  pub results : Option (Metrics F × F)
  pub onnx : Option (OnnxModel A T)
  pub parity_report : Option (ParityReport F)
  pub feature_order : Option (List String)
