-- ===== src/Metrics/Kept.antt =====
-- The metrics keep the threshold that they are computed for.
use fraud_ml_platform.Shared.{ℕ, ◌≡◌, sym, ap, List, FloatOps, ok, >>=-eq-ok, ok-inj}
use fraud_ml_platform.Metrics.Scores.{compute_metrics, Sklearn, Metrics}
use fraud_ml_platform.Metrics.Thresholds.{recall_at_precision, precision_at_recall}

pub compute_metrics-threshold :
    {F : Type 0} (ops : FloatOps F) (sklearn : Sklearn F) (y_true : List ℕ) (y_prob : List F)
    (threshold : F) (metrics : Metrics F)
    → compute_metrics ops sklearn y_true y_prob threshold ≡ ok metrics
    → metrics.threshold ≡ threshold
unfolding compute_metrics
compute_metrics-threshold ops sklearn y_true y_prob threshold metrics h =
    let (recall, _, h1) =
      >>=-eq-ok
        (recall_at_precision ops sklearn.precision_recall_curve y_true y_prob
          (ops.fdiv (ops.of_nat 95) (ops.of_nat 100)))
        _ h in
    let (precision, _, h2) =
      >>=-eq-ok
        (precision_at_recall ops sklearn.precision_recall_curve y_true y_prob
          (ops.fdiv (ops.of_nat 1) (ops.of_nat 2)))
        _ h1 in
    sym (ap (λ m. m.threshold) (ok-inj h2))
