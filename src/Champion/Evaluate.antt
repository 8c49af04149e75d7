-- ===== src/Champion/Evaluate.antt =====
-- training/scripts/evaluate.py and training/src/train.py. A row is of any type R; what XGBoost and
-- scikit-learn do with rows is a parameter, plots and the SHAP values are left out.
use fraud_ml_platform.Shared.{
  ℕ, ◌*◌, ◌/◌, String, Bool, Option, some, List, ◌∷◌, map, length, take, drop, FloatOps, pos,
  Result, ok, raise, ◌>>=◌,
}
use fraud_ml_platform.Metrics.Scores.{compute_metrics, Sklearn, Metrics, calibrate}
use fraud_ml_platform.Metrics.Thresholds.{find_optimal_threshold}
use fraud_ml_platform.Training.Selection.{champion_features}
use fraud_ml_platform.Tuning.Space.{integer, text, Params}

-- The parameters of XGBoost's classifier, in the order of `fit_xgboost`; `device` is XGB_DEVICE, and
-- `params` are the tuned ones. A keyword that `params` repeats is a TypeError in Python, which no
-- tuned parameter does.
abbrev pub xgb_params : {F : Type 0} → String → Params F → Params F
xgb_params device params =
    ("tree_method", text "hist")
    ∷ ("device", text device)
    ∷ ("eval_metric", text "aucpr")
    ∷ ("early_stopping_rounds", integer (pos 50))
    ∷ ("random_state", integer (pos 42))
    ∷ ("verbosity", integer (pos 1))
    ∷ params

-- A model M gives a row's features X the probability of a fraud; C is an isotonic calibrator.
pub record Xgboost (F X M C : Type 0) : Type 0 where
  pub fit : Params F → List X → List ℕ → List X → List ℕ → M
  pub probability : M → X → F
  pub fit_isotonic : List F → List ℕ → C
  pub predict_isotonic : C → F → F

-- `fit_xgboost`; moving the model to the CPU afterwards leaves its probabilities.
unfoldable pub fit_xgboost :
    {F X M C : Type 0} → Xgboost F X M C → String → List X → List ℕ → List X → List ℕ → Params F → M
fit_xgboost xgboost device X_train y_train X_val y_val params =
    xgboost.fit (xgb_params device params) X_train y_train X_val y_val

pub record EvaluationResults (F : Type 0) : Type 0 where
  pub feature_cols : List String
  pub optimal_threshold : F
  pub uncalibrated : Metrics F
  pub calibrated : Metrics F

-- final_model.json and results.json
pub record EvaluationFiles (F M : Type 0) : Type 0 where
  pub final_model : Option M
  pub results : Option (EvaluationResults F)

-- int(n * 0.9), as in train_challenger.py
abbrev pub holdout_start : ℕ → ℕ
holdout_start n = n * 9 / 10

-- `features` takes the columns out of a row, as float32.
module _ {F X M C R : Type 0} (ops : FloatOps F) (sklearn : Sklearn F) (xgboost : Xgboost F X M C)
    (device : String) (features : List String → R → X) (label : R → ℕ) where
  -- The model, of the train rows without the last tenth, which it is validated on.
  unfoldable pub final_fit : List String → Params F → List R → M
  final_fit feature_cols best_params train_rows =
      let val_start = holdout_start (length train_rows) in
      let tr = take val_start train_rows in
      let val = drop val_start train_rows in
      fit_xgboost xgboost device (map (features feature_cols) tr) (map label tr)
        (map (features feature_cols) val) (map label val) best_params

  unfoldable pub evaluated : List String → M → List R → List R → Result (EvaluationResults F)
  evaluated feature_cols clf train_rows test_rows =
      let val = drop (holdout_start (length train_rows)) train_rows in
      let X_val = map (features feature_cols) val in
      let y_val = map label val in
      let X_test = map (features feature_cols) test_rows in
      let y_test = map label test_rows in
      find_optimal_threshold ops sklearn.precision_recall_curve y_val
        (map (xgboost.probability clf) X_val)
      >>= λ threshold.
          compute_metrics ops sklearn y_test (map (xgboost.probability clf) X_test) threshold
          >>= λ metrics_uncal.
              let cal_clf =
                calibrate ops xgboost.predict_isotonic xgboost.fit_isotonic
                  (xgboost.probability clf) X_val y_val in
              compute_metrics ops sklearn y_test (map (λ x. (cal_clf x).1) X_test) threshold
              >>= λ metrics_cal. ok (record {
                feature_cols = feature_cols;
                optimal_threshold = threshold;
                uncalibrated = metrics_uncal;
                calibrated = metrics_cal;
              })

  -- `main`, up to results.json
  unfoldable pub evaluate :
      List (String × Bool)
      → List String
      → Params F
      → List R
      → List R
      → EvaluationFiles F M
      → Result (Unit {0}) × EvaluationFiles F M
  evaluate train_df pruned_features best_params train_rows test_rows files =
      let feature_cols = champion_features train_df pruned_features in
      let clf = final_fit feature_cols best_params train_rows in
      let saved : EvaluationFiles F M = record files { final_model = some clf } in
      elim (evaluated feature_cols clf train_rows test_rows) [
        | raise e ↦ (raise e, saved)
        | ok results ↦ (ok tt, record saved { results = some results })
      ]
