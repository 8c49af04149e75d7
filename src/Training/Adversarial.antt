-- ===== src/Training/Adversarial.antt =====
-- training/src/adversarial.py and training/scripts/adversarial_validation.py: how well the train rows
-- are told from the test rows, and by which columns. The folds, the fits and pandas' sort are
-- parameters.
use fraud_ml_platform.Shared.{
  ℕ, String, Option, none, some, List, [], ◌∷◌, ◌++◌, map, take, FloatOps,
}
use fraud_ml_platform.Training.Selection.{use_cols, prune_features}

-- A fold's score, and the gain of each column that the fold's model uses.
pub record FoldResult (F : Type 0) : Type 0 where
  pub auc : F
  pub gain : String → Option F

module _ {F : Type 0} (ops : FloatOps F) where
  -- `pd.Series(0.0, index=use_cols)`
  abbrev pub no_importances : List String → List (String × F)
  no_importances cols = map (λ c. (c, ops.of_nat 0)) cols

  -- `importances.add(imp, fill_value=0)`, a model using no other columns than it is given
  unfoldable pub add_gain : (String → Option F) → List (String × F) → List (String × F)
  add_gain gain importances =
      map (λ i. (i.0, ops.fadd i.1 (elim (gain i.0) [ some g ↦ g | none ↦ ops.of_nat 0 ])))
        importances

  -- The loop over the folds.
  unfoldable pub sum_folds :
      List (FoldResult F) → List F → List (String × F) → List F × List (String × F)
  sum_folds [] aucs importances = (aucs, importances)
  sum_folds (f ∷ folds) aucs importances =
      sum_folds folds (aucs ++ f.auc ∷ []) (add_gain f.gain importances)

  unfoldable pub run_adversarial_validation :
      (List F → F)
      → (List (String × F) → List (String × F))
      → (List String → List (FoldResult F))
      → List String
      → ℕ
      → F × List (String × F)
  run_adversarial_validation mean sort_values run_folds columns n_splits =
      let cols = use_cols columns in
      let (aucs, importances) = sum_folds (run_folds cols) [] (no_importances cols) in
      (mean aucs, sort_values (map (λ i. (i.0, ops.fdiv i.1 (ops.of_nat n_splits))) importances))

  -- What the script writes: the mean, the thirty first columns, and the features that stay.
  pub record AdversarialFiles : Type 0 where
    pub adversarial_auc : F
    pub drift_features : List (String × F)
    pub pruned_features : List String

  unfoldable pub adversarial_main :
      (List F → F)
      → (List (String × F) → List (String × F))
      → (List String → List (FoldResult F))
      → List String
      → List String
      → AdversarialFiles
  adversarial_main mean sort_values run_folds columns all_features =
      let (mean_auc, importances) =
        run_adversarial_validation mean sort_values run_folds columns 5 in
      record {
        adversarial_auc = mean_auc;
        drift_features = take 30 importances;
        pruned_features = prune_features importances all_features;
      }
