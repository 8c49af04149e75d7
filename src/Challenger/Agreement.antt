-- ===== src/Challenger/Agreement.antt =====
-- Recomputing the challenger's metrics against its training.
use fraud_ml_platform.Challenger.Fitting
use fraud_ml_platform.Challenger.Recompute
use fraud_ml_platform.Shared.{
  String, ◌≡◌, refl, sym, ap, ◌∙◌, some, List, FloatOps, Result, ok, raise,
}
use fraud_ml_platform.Challenger.Fitting.{best_params_of, fit_params_of, fit_final}
use fraud_ml_platform.Challenger.Frames.{columns, Data, reload_data}
use fraud_ml_platform.Challenger.Models.{Lightgbm, Optuna, OnnxTools, Disk}
use fraud_ml_platform.Challenger.Recompute.{recomputed}
use fraud_ml_platform.Challenger.Reloading.{reload_data-load_data}
use fraud_ml_platform.Challenger.Training.{IsRefitted, main-finished}
use fraud_ml_platform.Metrics.Scores.{Sklearn, Metrics}
use fraud_ml_platform.Training.Categoricals.{TableColumn, Encoded, Mappings, HasDistinctColumns}
use fraud_ml_platform.Tuning.Study.{RunEnd, finished, stopped}

module _ {F V M A T : Type 0} (ops : FloatOps F) (sklearn : Sklearn F) (lightgbm : Lightgbm V F M)
    (optuna : Optuna F) (tools : OnnxTools V F M A T)
    (sample_raw : List (String × TableColumn V)) where
  recomputed-IsRefitted :
      (train_df test_df : List (String × TableColumn V)) (disk' : Disk F M A T) (parts : Data V)
      (cat_mappings : Mappings)
      → ((model : M) (df : List (String × Encoded V))
          → lightgbm.booster_predict model df ≡ lightgbm.predict_proba model df)
      → disk'.category_mappings ≡ some cat_mappings
      → reload_data cat_mappings train_df test_df ≡ ok parts
      → (r : IsRefitted ops sklearn lightgbm optuna tools sample_raw parts disk')
      → recomputed ops sklearn lightgbm optuna train_df test_df disk' ≡ ok (r.metrics, r.best_value)
  unfolding recomputed
  recomputed-IsRefitted train_df test_df disk' parts cat_mappings saved mappings again r =
      let model =
        fit_final ops sklearn lightgbm (fit_params_of ops (best_params_of ops r.params)) parts in
      rw
        (
          recomputed,
          mappings,
          again,
          r.params_written,
          r.from_twin,
          r.model_written,
          saved model parts.X_test,
          r.measured,
          r.best,
        )
        refl

-- If a training has finished, on tables with the same column names, no name twice, and the saved model
-- predicts what the trained one does, then recomputing the metrics from the files finishes and
-- changes none of them: the threshold and the metrics come out the same.
pub recompute-main :
    {F V M A T : Type 0} (ops : FloatOps F) (sklearn : Sklearn F) (lightgbm : Lightgbm V F M)
    (optuna : Optuna F) (tools : OnnxTools V F M A T)
    (train_df test_df sample_raw : List (String × TableColumn V)) (disk disk' : Disk F M A T)
    → ((model : M) (df : List (String × Encoded V))
        → lightgbm.booster_predict model df ≡ lightgbm.predict_proba model df)
    → HasDistinctColumns train_df
    → columns train_df ≡ columns test_df
    → Fitting.main ops sklearn lightgbm optuna tools train_df test_df sample_raw disk
      ≡ (finished, disk')
    → Recompute.main ops sklearn lightgbm optuna train_df test_df disk' ≡ (finished, disk')
unfolding Recompute.main
recompute-main ops sklearn lightgbm optuna tools train_df test_df sample_raw disk disk' saved
      distinct names h =
    let (parts, cat_mappings, loaded, _, mappings, r) =
      main-finished ops sklearn lightgbm optuna tools sample_raw train_df test_df disk disk' h in
    let again = reload_data-load_data train_df test_df parts cat_mappings distinct names loaded in
    let same =
      recomputed-IsRefitted ops sklearn lightgbm optuna tools sample_raw train_df test_df disk'
        parts cat_mappings saved mappings again r in
    ap (written disk') same
    ∙ ap (λ results. (finished, record disk' { results = results })) (sym r.results_written)
  where
    written : {F M A T : Type 0} → Disk F M A T → Result (Metrics F × F) → RunEnd × Disk F M A T
    written disk (raise e) = (stopped e, disk)
    written disk (ok results) = (finished, record disk { results = some results })
