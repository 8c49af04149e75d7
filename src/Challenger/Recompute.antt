-- ===== src/Challenger/Recompute.antt =====
-- monitoring/scripts/recompute_challenger_metrics.py, on the files that a training has left.
use fraud_ml_platform.Shared.{
  String, Option, none, some, List, FloatOps, file_not_found, Result, ok, raise, ◌>>=◌,
}
use fraud_ml_platform.Challenger.Fitting.{fit_params_of, twin_threshold}
use fraud_ml_platform.Challenger.Frames.{reload_data}
use fraud_ml_platform.Challenger.Models.{Lightgbm, Optuna, Disk}
use fraud_ml_platform.Metrics.Scores.{compute_metrics, Sklearn, Metrics}
use fraud_ml_platform.Training.Categoricals.{TableColumn}
use fraud_ml_platform.Tuning.Study.{RunEnd, finished, stopped}

-- The content of a file that is read.
abbrev pub read_file : {A : Type 0} → Option A → Result A
read_file none = raise file_not_found
read_file (some a) = ok a

module _ {F V M A T : Type 0} (ops : FloatOps F) (sklearn : Sklearn F) (lightgbm : Lightgbm V F M)
    (optuna : Optuna F) where
  unfoldable pub recomputed :
      List (String × TableColumn V)
      → List (String × TableColumn V)
      → Disk F M A T
      → Result (Metrics F × F)
  recomputed train_df test_df disk = read_file disk.category_mappings >>= λ cat_mappings.
      reload_data cat_mappings train_df test_df >>= λ parts.
      read_file disk.best_params >>= λ best_params.
      twin_threshold ops sklearn lightgbm (fit_params_of ops best_params) parts >>= λ threshold.
      read_file disk.final_model >>= λ booster.
      compute_metrics ops sklearn (lightgbm.labels parts.y_test)
        (lightgbm.booster_predict booster parts.X_test) threshold
      >>= λ metrics. optuna.best disk.study >>= λ best. ok (metrics, best.1)

  unfoldable pub main :
      List (String × TableColumn V)
      → List (String × TableColumn V)
      → Disk F M A T
      → RunEnd × Disk F M A T
  main train_df test_df disk = elim (recomputed train_df test_df disk) [
    | raise e ↦ (stopped e, disk)
    | ok results ↦ (finished, record disk { results = some results })
  ]
