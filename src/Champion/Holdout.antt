-- ===== src/Champion/Holdout.antt =====
-- Which rows the champion's model, its threshold and its metrics come from.
use fraud_ml_platform.Shared.{
  ℕ, zero, suc, ◌<◌, String, ◌≡◌, refl, sym, ap, ◌∙◌, subst, inl, inr, Bool, some, List, [], ◌∷◌,
  ◌++◌, map, length, take, drop, All, FloatOps, ok, Result-cases, >>=-eq-ok, ok-inj, raise≢ok,
}
use fraud_ml_platform.Champion.Evaluate.{
  Xgboost, fit_xgboost, EvaluationResults, EvaluationFiles, holdout_start, final_fit, evaluated,
  evaluate,
}
use fraud_ml_platform.Metrics.Kept.{compute_metrics-threshold}
use fraud_ml_platform.Metrics.Scores.{compute_metrics, Sklearn, calibrate}
use fraud_ml_platform.Metrics.Thresholds.{find_optimal_threshold}
use fraud_ml_platform.Training.Preprocess.{Row, temporal_split}
use fraud_ml_platform.Training.Selection.{champion_features}
use fraud_ml_platform.Training.Separation.{temporal_split-IsSeparated}
use fraud_ml_platform.Tuning.Space.{Params}

take-append-drop : {A : Type 0} (n : ℕ) (xs : List A) → take n xs ++ drop n xs ≡ xs
take-append-drop zero xs = refl
take-append-drop (suc n) [] = refl
take-append-drop (suc n) (x ∷ xs) = ap (λ l. x ∷ l) (take-append-drop n xs)

-- The train rows are divided into rows to fit to and later rows, all before the test rows, and the
-- threshold of both sets of metrics is the one that is found on the later rows.
pub record IsHeldOut {F X M C A : Type 0} (ops : FloatOps F) (sklearn : Sklearn F)
    (xgboost : Xgboost F X M C) (device : String) (features : List String → Row A → X)
    (label : Row A → ℕ) (feature_cols : List String) (best_params : Params F)
    (train_rows test_rows : List (Row A)) (files : EvaluationFiles F M) : Type 0 where
  pub tr : List (Row A)
  pub val : List (Row A)
  pub divided : tr ++ val ≡ train_rows
  pub model : M
  pub fitted :
      model
      ≡ fit_xgboost xgboost device
          (map (features feature_cols) tr)
          (map label tr)
          (map (features feature_cols) val)
          (map label val)
          best_params
  pub results : EvaluationResults F
  pub files_written :
      (files.final_model ≡ some model)
      × (files.results ≡ some results)
      × (results.feature_cols ≡ feature_cols)
  pub found :
      find_optimal_threshold ops sklearn.precision_recall_curve
        (map label val)
        (map (xgboost.probability model) (map (features feature_cols) val))
      ≡ ok results.optimal_threshold
  pub same_threshold :
      (results.uncalibrated.threshold ≡ results.optimal_threshold)
      × (results.calibrated.threshold ≡ results.optimal_threshold)
  pub before : All (λ t. All (λ r. r.transaction_dt < t.transaction_dt) (tr ++ val)) test_rows

-- If the rows have passed the temporal split and the evaluation ends well, then the model is fitted to
-- the first part of the train rows and validated on the rest, the threshold is found on that rest
-- alone, both sets of metrics have it, and each of these rows is earlier than every test row.
pub evaluate-IsHeldOut :
    {F X M C A : Type 0} (ops : FloatOps F) (sklearn : Sklearn F) (xgboost : Xgboost F X M C)
    (device : String) (features : List String → Row A → X) (label : Row A → ℕ)
    (train_df : List (String × Bool)) (pruned_features : List String) (best_params : Params F)
    (rows train_rows test_rows : List (Row A)) (files files' : EvaluationFiles F M)
    → temporal_split rows ≡ ok (train_rows, test_rows)
    → evaluate ops sklearn xgboost device features label train_df pruned_features best_params
        train_rows test_rows files
      ≡ (ok tt, files')
    → IsHeldOut ops sklearn xgboost device features label
        (champion_features train_df pruned_features)
        best_params
        train_rows
        test_rows
        files'
unfolding evaluate evaluated final_fit
evaluate-IsHeldOut ops sklearn xgboost device features label train_df pruned_features best_params
      rows train_rows test_rows files files' split_ok h =
    let cols = champion_features train_df pruned_features in
    let clf = final_fit ops sklearn xgboost device features label cols best_params train_rows in
    let start = holdout_start (length train_rows) in
    let val = drop start train_rows in
    let X_val = map (features cols) val in
    let X_test = map (features cols) test_rows in
    let divided = take-append-drop start train_rows in
    let separated = temporal_split-IsSeparated rows train_rows test_rows split_ok in
    elim (Result-cases
      (evaluated ops sklearn xgboost device features label cols clf train_rows test_rows)) [
        | inr (e, r) ↦ absurd (raise≢ok (ap (λ p. p.0) (rw (evaluate, r) at h)))
        | inl (results, r) ↦
            let written = ap (λ p. p.1) (rw (evaluate, r) at h) in
            let (threshold, t, r1) =
              >>=-eq-ok
                (find_optimal_threshold ops sklearn.precision_recall_curve (map label val)
                  (map (xgboost.probability clf) X_val))
                _ r in
            let (uncal, u, r2) =
              >>=-eq-ok
                (compute_metrics ops sklearn (map label test_rows)
                  (map (xgboost.probability clf) X_test) threshold)
                _ r1 in
            let cal_clf =
              calibrate ops xgboost.predict_isotonic xgboost.fit_isotonic (xgboost.probability clf)
                X_val (map label val) in
            let (cal, c, r3) =
              >>=-eq-ok
                (compute_metrics ops sklearn (map label test_rows) (map (λ x. (cal_clf x).1) X_test)
                  threshold)
                _ r2 in
            let same = ok-inj r3 in
            let at_threshold = ap (λ s. s.optimal_threshold) same in
            record {
              tr = take start train_rows;
              val = val;
              divided = divided;
              model = clf;
              fitted = refl;
              results = results;
              files_written = (
                ap (λ f. f.final_model) (sym written),
                ap (λ f. f.results) (sym written),
                ap (λ s. s.feature_cols) (sym same),
              );
              found = t ∙ ap ok at_threshold;
              same_threshold = (
                ap (λ s. s.uncalibrated.threshold) (sym same)
                    ∙ compute_metrics-threshold ops sklearn _ _ threshold uncal u
                    ∙ at_threshold,
                ap (λ s. s.calibrated.threshold) (sym same)
                    ∙ compute_metrics-threshold ops sklearn _ _ threshold cal c
                    ∙ at_threshold,
              );
              before =
                  subst (λ l. All (λ t. All (λ r. r.transaction_dt < t.transaction_dt) l) test_rows)
                    (sym divided) separated.before;
            }
      ]
