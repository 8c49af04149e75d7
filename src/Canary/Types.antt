-- ===== src/Canary/Types.antt =====
-- The data of monitoring/canary/evaluator.py, the settings that it reads, and the table
-- canary_decisions. An f-string reason is kept as the values that it formats.
use fraud_ml_platform.Shared.{ℕ, String, Bool, List, Result}
use fraud_ml_platform.Database.{Time}

pub record ModelMetrics (F : Type 0) : Type 0 where
  pub n_predictions : ℕ
  pub pr_auc : F
  pub roc_auc : F
  pub brier_score : F
  pub flag_rate : F
  pub p95_total_ms : F

pub data Decision : Type 0 where
  promote rollback continue : Decision

-- `unknown` is the default of migration 008, for rows older than the column.
pub data Outcome : Type 0 where
  improving no_signal insufficient_data inactive rolled_back promoted unknown : Outcome

pub data Reason (F : Type 0) : Type 0 where
  too_few_labels no_clear_signal canary_inactive : Reason F
  pr_auc_worse brier_worse : (by threshold : F) → Reason F
  latency_worse : (challenger_p95 ratio champion_p95 : F) → Reason F
  better_for : (delta : F) (runs : ℕ) → Reason F
  better_so_far : (delta : F) (runs required : ℕ) → Reason F

-- The JSON payload `metrics`.
pub data Payload (F : Type 0) : Type 0 where
  empty : Payload F
  counts : (champion_n challenger_n min_required : ℕ) → Payload F
  both : (champion challenger : ModelMetrics F) → Payload F

pub record CanaryDecision (F : Type 0) : Type 0 where
  pub decision : Decision
  pub outcome : Outcome
  pub reason : Reason F
  pub metrics : Payload F
  pub window_start : Time
  pub window_end : Time
  pub decision_id : String

pub record CanaryConfig (F : Type 0) : Type 0 where
  pub champion_version : String
  pub challenger_version : String
  pub canary_window_hours : ℕ
  pub canary_min_labeled_predictions : ℕ
  pub canary_pr_auc_rollback_delta : F
  pub canary_brier_rollback_delta : F
  pub canary_pr_auc_promote_delta : F
  pub canary_required_consecutive_runs : ℕ
  pub canary_latency_p95_rollback_ratio : F

pub record CanaryRow (F : Type 0) : Type 0 where
  pub champion_version : String
  pub challenger_version : String
  pub verdict : CanaryDecision F
  pub created_at : Time

-- The functions of scikit-learn and NumPy that `_compute_metrics` calls; each may raise.
pub record MetricFunctions (F : Type 0) : Type 0 where
  pub average_precision_score : List F → List F → Result F
  pub roc_auc_score : List F → List F → Result F
  pub brier_score_loss : List F → List F → Result F
  pub mean : List Bool → Result F
  pub percentile : List F → ℕ → Result F
