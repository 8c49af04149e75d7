-- ===== src/Baselines/Runs.antt =====
-- training/src/baselines.py, the four baselines, and training/scripts/baselines.py. What a classifier
-- does is a parameter, given the steps of its pipeline with their arguments.
use fraud_ml_platform.Shared.{
  ℕ, String, Bool, List, [], ◌∷◌, ◌++◌, map, str_eq, keep_if, FloatOps, pos, negsuc, Result, ok,
  ◌>>=◌,
}
use fraud_ml_platform.Baselines.Models.{
  BaselineColumn, BaselineMetrics, Spread, run_sampled, run_boosted,
}
use fraud_ml_platform.Metrics.Scores.{Sklearn}
use fraud_ml_platform.Training.Selection.{champion_features}
use fraud_ml_platform.Tuning.Space.{integer, number, text, Params, ratio}

module _ {F : Type 0} (ops : FloatOps F) where
  abbrev pub logistic_pipeline : List (String × Params F)
  logistic_pipeline =
      ("imputer", ("strategy", text "median") ∷ [])
      ∷ ("scaler", [])
      ∷ ("lr", ("max_iter", integer (pos 1000)) ∷ ("class_weight", text "balanced") ∷ [])
      ∷ []

  abbrev pub forest_pipeline : List (String × Params F)
  forest_pipeline =
      ("imputer", ("strategy", text "median") ∷ [])
      ∷ (
        "rf",
        ("n_estimators", integer (pos 500))
            ∷ ("max_depth", integer (pos 20))
            ∷ ("class_weight", text "balanced")
            ∷ ("n_jobs", integer (negsuc 0))
            ∷ ("random_state", integer (pos 42))
            ∷ [],
      )
      ∷ []

  abbrev pub lightgbm_params : String → F → Params F
  lightgbm_params device weight =
      ("n_estimators", integer (pos 500))
      ∷ ("max_depth", integer (pos 8))
      ∷ ("learning_rate", number (ratio ops 5 100))
      ∷ ("num_leaves", integer (pos 63))
      ∷ ("scale_pos_weight", number weight)
      ∷ ("device_type", text device)
      ∷ ("n_jobs", integer (negsuc 0))
      ∷ ("random_state", integer (pos 42))
      ∷ ("verbosity", integer (negsuc 0))
      ∷ []

  abbrev pub xgboost_params : String → F → Params F
  xgboost_params device weight =
      ("tree_method", text "hist")
      ∷ ("device", text device)
      ∷ ("n_estimators", integer (pos 500))
      ∷ ("max_depth", integer (pos 8))
      ∷ ("learning_rate", number (ratio ops 5 100))
      ∷ ("subsample", number (ratio ops 8 10))
      ∷ ("colsample_bytree", number (ratio ops 8 10))
      ∷ ("scale_pos_weight", number weight)
      ∷ ("eval_metric", text "aucpr")
      ∷ ("random_state", integer (pos 42))
      ∷ ("verbosity", integer (pos 0))
      ∷ []

-- What the classifiers do: `fit` is given the steps or the arguments, the columns and the places of the
-- rows among all rows that the run uses, and then the rows to train on and to validate on among those.
pub record Classifiers (F : Type 0) : Type 0 where
  pub pipeline : List (String × Params F) → List String → List ℕ → List ℕ → List ℕ → List F
  pub lightgbm : Params F → List String → List ℕ → List ℕ → List F
  pub xgboost : Params F → List String → List ℕ → List ℕ → List F
  pub group_sample : List ℕ → ℕ → List ℕ

-- XGB_DEVICE, LGB_DEVICE and LR_RF_SAMPLE.
pub record BaselineSettings : Type 0 where
  pub xgb_device : String
  pub lgb_device : String
  pub lr_rf_sample : ℕ

-- The column that a name of the feature list stands for.
abbrev pub columns_named : List BaselineColumn → List String → List BaselineColumn
columns_named train_df [] = []
columns_named train_df (name ∷ names) =
    keep_if (λ c. str_eq c.name name) train_df ++ columns_named train_df names

module _ {F : Type 0} (ops : FloatOps F) (sklearn : Sklearn F) (mean std : List F → F)
    (time_series_split : ℕ → ℕ → Result (List (List ℕ × List ℕ))) (classifiers : Classifiers F)
    (settings : BaselineSettings) where
  unfoldable pub run_logistic_regression :
      List BaselineColumn → List ℕ → List ℕ → Result (BaselineMetrics (Spread F))
  run_logistic_regression X y dt =
      run_sampled ops sklearn mean std time_series_split classifiers.group_sample
        settings.lr_rf_sample (classifiers.pipeline (logistic_pipeline ops)) X y dt

  unfoldable pub run_random_forest :
      List BaselineColumn → List ℕ → List ℕ → Result (BaselineMetrics (Spread F))
  run_random_forest X y dt =
      run_sampled ops sklearn mean std time_series_split classifiers.group_sample
        settings.lr_rf_sample (classifiers.pipeline (forest_pipeline ops)) X y dt

  unfoldable pub run_lightgbm :
      List BaselineColumn → List ℕ → List ℕ → Result (BaselineMetrics (Spread F))
  run_lightgbm X y dt =
      run_boosted ops sklearn mean std time_series_split
        (λ weight.
          classifiers.lightgbm (lightgbm_params ops settings.lgb_device weight)
            (map (λ c. c.name) X))
        y dt

  unfoldable pub run_xgboost_untuned :
      List BaselineColumn → List ℕ → List ℕ → Result (BaselineMetrics (Spread F))
  run_xgboost_untuned X y dt =
      run_boosted ops sklearn mean std time_series_split
        (λ weight.
          classifiers.xgboost (xgboost_params ops settings.xgb_device weight) (map (λ c. c.name) X))
        y dt

  -- `main`: the scores that are written, or the first exception, when nothing is written.
  unfoldable pub baseline_scores :
      List (String × Bool)
      → List BaselineColumn
      → List String
      → List ℕ
      → List ℕ
      → Result (List (String × BaselineMetrics (Spread F)))
  baseline_scores dtypes train_df pruned_features y dt =
      let X = columns_named train_df (champion_features dtypes pruned_features) in
      run_logistic_regression X y dt >>= λ logistic_regression.
      run_random_forest X y dt >>= λ random_forest. run_lightgbm X y dt >>= λ lightgbm.
      run_xgboost_untuned X y dt >>= λ xgboost_untuned. ok (
        ("logistic_regression", logistic_regression)
        ∷ ("random_forest", random_forest)
        ∷ ("lightgbm", lightgbm)
        ∷ ("xgboost_untuned", xgboost_untuned)
        ∷ [])
