-- ===== src/Metrics/Scores.antt =====
-- training/src/evaluate.py: the metrics of predicted probabilities, and the calibrated model.
-- scikit-learn's scores are parameters.
use fraud_ml_platform.Shared.{ℕ, List, map, if◌then◌else◌, FloatOps, Result, ok, ◌>>=◌}
use fraud_ml_platform.Metrics.Thresholds.{Curve, recall_at_precision, precision_at_recall}

pub record Sklearn (F : Type 0) : Type 0 where
  pub average_precision_score : List ℕ → List F → F
  pub roc_auc_score : List ℕ → List F → F
  -- with zero_division=0
  pub f1_score : List ℕ → List ℕ → F
  pub brier_score_loss : List ℕ → List F → F
  pub precision_recall_curve : List ℕ → List F → Curve F

pub record Metrics (F : Type 0) : Type 0 where
  pub pr_auc : F
  pub roc_auc : F
  pub f1 : F
  pub brier : F
  pub recall_at_95_precision : F
  pub precision_at_50_recall : F
  pub threshold : F

module _ {F : Type 0} (ops : FloatOps F) (sklearn : Sklearn F) where
  -- `(y_prob >= threshold).astype(int)`
  unfoldable pub predictions : F → List F → List ℕ
  predictions threshold y_prob = map (λ p. if ops.fle threshold p then 1 else 0) y_prob

  unfoldable pub compute_metrics : List ℕ → List F → F → Result (Metrics F)
  compute_metrics y_true y_prob threshold =
      recall_at_precision ops sklearn.precision_recall_curve y_true y_prob
        (ops.fdiv (ops.of_nat 95) (ops.of_nat 100))
      >>= λ recall.
          precision_at_recall ops sklearn.precision_recall_curve y_true y_prob
            (ops.fdiv (ops.of_nat 1) (ops.of_nat 2))
          >>= λ precision. ok (record {
            pr_auc = sklearn.average_precision_score y_true y_prob;
            roc_auc = sklearn.roc_auc_score y_true y_prob;
            f1 = sklearn.f1_score y_true (predictions threshold y_prob);
            brier = sklearn.brier_score_loss y_true y_prob;
            recall_at_95_precision = recall;
            precision_at_50_recall = precision;
            threshold = threshold;
          })

-- A classifier gives each row the probability of a fraud, the second column of `predict_proba`; a
-- calibrator is fitted to the ones on the rows to validate on.
module _ {F X C : Type 0} (ops : FloatOps F) (predict : C → F → F) where
  -- `_IsotonicCalibrated.predict_proba`, on one row
  unfoldable pub predict_proba : (X → F) → C → X → F × F
  predict_proba clf calibrator x =
      let cal = predict calibrator (clf x) in (ops.fsub (ops.of_nat 1) cal, cal)

  unfoldable pub calibrate : (List F → List ℕ → C) → (X → F) → List X → List ℕ → X → F × F
  calibrate fit clf X_val y_val = predict_proba clf (fit (map clf X_val) y_val)
