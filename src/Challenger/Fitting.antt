-- ===== src/Challenger/Fitting.antt =====
-- monitoring/scripts/train_challenger.py: the objective of the tuning, and `main`.
use fraud_ml_platform.Shared.{
  String, true, false, none, some, List, [], ◌∷◌, ◌++◌, map, FloatOps, pos, negsuc, Result, ok,
  raise,
}
use fraud_ml_platform.Challenger.Exporting.{export_onnx}
use fraud_ml_platform.Challenger.Frames.{Data, load_data}
use fraud_ml_platform.Challenger.Models.{Lightgbm, Optuna, OnnxTools, Disk}
use fraud_ml_platform.Metrics.Scores.{compute_metrics, Sklearn}
use fraud_ml_platform.Metrics.Thresholds.{find_optimal_threshold}
use fraud_ml_platform.Training.Categoricals.{TableColumn, Mappings}
use fraud_ml_platform.Tuning.Space.{
  integer, ParamValue, text, Params, assign, Suggestion, suggest_int, suggest_float, ratio,
}
use fraud_ml_platform.Tuning.Study.{RunEnd, finished, interrupted, stopped, run_remaining}

module _ {F : Type 0} (ops : FloatOps F) where
  -- The parameters that a trial suggests a value for, with their ranges.
  abbrev pub search_space : List (String × Suggestion F)
  search_space =
      ("num_leaves", suggest_int 20 500)
      ∷ ("learning_rate", suggest_float (ratio ops 1 1000) (ratio ops 3 10) true)
      ∷ ("feature_fraction", suggest_float (ratio ops 4 10) (ratio ops 1 1) false)
      ∷ ("bagging_fraction", suggest_float (ratio ops 4 10) (ratio ops 1 1) false)
      ∷ ("bagging_freq", suggest_int 1 10)
      ∷ ("min_child_samples", suggest_int 5 100)
      ∷ ("reg_alpha", suggest_float (ratio ops 1 100000000) (ratio ops 10 1) true)
      ∷ ("reg_lambda", suggest_float (ratio ops 1 100000000) (ratio ops 10 1) true)
      ∷ ("n_estimators", suggest_int 200 2000)
      ∷ []

  abbrev pub trial_params : (String → Suggestion F → ParamValue F) → Params F
  trial_params trial =
      map (λ s. (s.0, trial s.0 s.1)) search_space
      ++ ("objective", text "binary")
        ∷ ("metric", text "average_precision")
        ∷ ("verbosity", integer (negsuc 0))
        ∷ ("random_state", integer (pos 42))
        ∷ ("device", text "cuda")
        ∷ []

  -- `best_params` and `fit_params`
  abbrev pub best_params_of : Params F → Params F
  best_params_of params = assign "device" (text "cuda") (
      assign "random_state" (integer (pos 42))
        (assign "verbosity" (integer (negsuc 0)) (assign "objective" (text "binary") params)))

  abbrev pub fit_params_of : Params F → Params F
  fit_params_of best_params = assign "device" (text "cpu") best_params

  module _ {V M : Type 0} (sklearn : Sklearn F) (lightgbm : Lightgbm V F M) where
    unfoldable pub objective : Data V → (String → Suggestion F → ParamValue F) → F
    objective parts trial =
        let model =
          lightgbm.fit_early (trial_params trial) parts.X_train parts.y_train parts.X_val
            parts.y_val in
        sklearn.average_precision_score (lightgbm.labels parts.y_val)
          (lightgbm.predict_proba model parts.X_val)

    -- The threshold of a model that has not been fitted to the rows to validate on.
    unfoldable pub twin_threshold : Params F → Data V → Result F
    twin_threshold fit_params parts =
        let twin =
          lightgbm.fit_early fit_params parts.X_train parts.y_train parts.X_val parts.y_val in
        find_optimal_threshold ops sklearn.precision_recall_curve (lightgbm.labels parts.y_val)
          (lightgbm.predict_proba twin parts.X_val)

    unfoldable pub fit_final : Params F → Data V → M
    fit_final fit_params parts =
        lightgbm.fit fit_params (lightgbm.concat parts.X_train parts.X_val)
          (lightgbm.concat_column parts.y_train parts.y_val)

    abbrev pub load_cat_mappings : {A T : Type 0} → Disk F M A T → Mappings
    load_cat_mappings disk = elim disk.category_mappings [
      | some cat_mappings ↦ cat_mappings
      | none ↦ []
    ]

    module _ {A T : Type 0} (optuna : Optuna F) (tools : OnnxTools V F M A T) where
      -- From the final model on: its metrics on the test rows, and its export.
      unfoldable pub assess :
          List (String × TableColumn V) → Data V → F → F → M → Disk F M A T → RunEnd × Disk F M A T
      assess sample_raw parts best_value threshold model disk =
          elim (compute_metrics ops sklearn (lightgbm.labels parts.y_test)
            (lightgbm.predict_proba model parts.X_test) threshold) [
              | raise e ↦ (stopped e, disk)
              | ok metrics ↦
                  export_onnx ops lightgbm tools model parts.feature_cols (load_cat_mappings disk)
                    sample_raw (record disk { results = some (metrics, best_value) })
            ]

      -- From the best parameters on.
      unfoldable pub refit :
          List (String × TableColumn V) → Data V → Disk F M A T → RunEnd × Disk F M A T
      refit sample_raw parts disk = elim (optuna.best disk.study) [
        | raise e ↦ (stopped e, disk)
        | ok (params, best_value) ↦
            let best_params = best_params_of params in
            let fit_params = fit_params_of best_params in
            let disk1 = record disk { best_params = some best_params } in
            elim (twin_threshold fit_params parts) [
              | raise e ↦ (stopped e, disk1)
              | ok threshold ↦
                  let model = fit_final fit_params parts in
                  assess sample_raw parts best_value threshold model
                    (record disk1 { final_model = some model })
            ]
      ]

      -- The study, which may be stopped, and what follows it.
      unfoldable pub search :
          List (String × TableColumn V) → Data V → Disk F M A T → RunEnd × Disk F M A T
      search sample_raw parts disk =
          let (end, study) = run_remaining (optuna.optimize (objective parts)) 300 disk.study in
          elim end [
            | finished ↦ refit sample_raw parts (record disk { study = study })
            | interrupted ↦ (interrupted, record disk { study = study })
            | stopped e ↦ (stopped e, record disk { study = study })
          ]

      -- The tables that are read, and the first 1000 rows of the test table.
      unfoldable pub main :
          List (String × TableColumn V)
          → List (String × TableColumn V)
          → List (String × TableColumn V)
          → Disk F M A T
          → RunEnd × Disk F M A T
      main train_df test_df sample_raw disk = elim (load_data train_df test_df) [
        | raise e ↦ (stopped e, disk)
        | ok (parts, cat_mappings) ↦
            search sample_raw parts (record disk { category_mappings = some cat_mappings })
      ]
