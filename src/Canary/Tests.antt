-- ===== src/Canary/Tests.antt =====
-- Runs of the evaluator and of the job on small inputs, and the instances of their theorems. Metrics
-- are in thousandths, and a score is the sum of the probabilities.
use fraud_ml_platform.Shared.{
  ℕ, ◌+◌, ◌-◌, ◌*◌, ◌≤◌, String, ◌≡◌, refl, ◌↔◌, inl, inr, true, false, none, List, [], ◌∷◌, ◌++◌,
  arith, length, take, All, ℤ, pos, ok,
}
use fraud_ml_platform.Canary.Evaluator.{
  compute_metrics, guardrail, judge, decide_on, evaluate_canary,
}
use fraud_ml_platform.Canary.History.{history, evaluate_canary-promote_history}
use fraud_ml_platform.Canary.Isolation.{evaluate_canary-unseen}
use fraud_ml_platform.Canary.Query.{join_labels, fetch_rows}
use fraud_ml_platform.Canary.Streak.{
  count_improving, insert_newest, newest_first, outcome_of, recent_outcomes,
  count_consecutive_improvements,
}
use fraud_ml_platform.Canary.Types.{
  ModelMetrics, promote, rollback, continue, improving, insufficient_data, promoted, better_for,
  both, CanaryDecision, CanaryConfig, CanaryRow, MetricFunctions,
}
use fraud_ml_platform.Canary.Verdicts.{
  IsConsistent, IsHarmful, IsBetter, window_rows, HasFewRows, evaluate_canary-rollback,
  evaluate_canary-promote, evaluate_canary-outcome,
}
use fraud_ml_platform.Database.{Time, hour, time_minus, Prediction, Label}
use fraud_ml_platform.Samples.{ints}

abbrev pub total : List ℤ → ℤ
total [] = pos 0
total (x ∷ xs) = ints.fadd x (total xs)

abbrev pub scores : MetricFunctions ℤ
scores = record {
  average_precision_score = λ y p. ok (total p);
  roc_auc_score = λ y p. ok (total p);
  brier_score_loss = λ y p. ok (pos 20);
  mean = λ fs. ok (pos 0);
  percentile = λ ts q. ok (total ts);
}

abbrev pub prediction : ℕ → String → ℕ → ℕ → Time → Prediction ℤ
prediction id version score ms at = record {
  transaction_id = id;
  model_version = version;
  fraud_probability = pos score;
  flagged = false;
  features_hash = "";
  total_ms = pos ms;
  created_at = at;
}

abbrev pub label : ℕ → Time → Label
label id at = record {
  transaction_id = id;
  is_fraud = true;
  label_source = "simulator";
  available_at = at;
}

abbrev pub config : ℕ → CanaryConfig ℤ
config required = record {
  champion_version = "c";
  challenger_version = "h";
  canary_window_hours = 1;
  canary_min_labeled_predictions = 1;
  canary_pr_auc_rollback_delta = pos 50;
  canary_brier_rollback_delta = pos 20;
  canary_pr_auc_promote_delta = pos 10;
  canary_required_consecutive_runs = required;
  canary_latency_p95_rollback_ratio = pos 3;
}

abbrev pub now : Time
now = 2 * hour

abbrev pub predictions : List (Prediction ℤ)
predictions = prediction 1 "c" 500 4 (2 * hour - 5) ∷ prediction 2 "h" 600 5 (2 * hour - 4) ∷ []

abbrev pub labels : List Label
labels = label 1 7 ∷ label 2 8 ∷ []

abbrev pub metrics_of : ℕ → ℕ → ModelMetrics ℤ
metrics_of score ms = record {
  n_predictions = 1;
  pr_auc = pos score;
  roc_auc = pos score;
  brier_score = pos 20;
  flag_rate = pos 0;
  p95_total_ms = pos ms;
}

abbrev pub better : CanaryDecision ℤ
better = record {
  decision = promote;
  outcome = promoted;
  reason = better_for (pos 100) 1;
  metrics = both (metrics_of 500 4) (metrics_of 600 5);
  window_start = hour;
  window_end = now;
  decision_id = "d1";
}

unfoldable pub evaluator : Unit {0}
unfolding evaluate_canary time_minus fetch_rows join_labels decide_on compute_metrics judge
    guardrail count_consecutive_improvements recent_outcomes newest_first insert_newest
    count_improving
evaluator = tt

evaluate_better :
    evaluate_canary ints scores (config 1) predictions labels [] none now "d1" ≡ ok better
unfolding evaluator
evaluate_better = refl

evaluate_canary-rollback_example :
    (better.decision ≡ rollback) ↔ IsHarmful ints (config 1) (metrics_of 500 4) (metrics_of 600 5)
evaluate_canary-rollback_example =
    evaluate_canary-rollback ints scores (config 1) predictions labels [] none now "d1"
      evaluate_better (metrics_of 500 4) (metrics_of 600 5) refl

evaluate_canary-promote_example : (better.decision ≡ promote) ↔ (
    (¬ IsHarmful ints (config 1) (metrics_of 500 4) (metrics_of 600 5))
    × IsBetter ints (config 1) (metrics_of 500 4) (metrics_of 600 5)
    × (1 ≤ count_consecutive_improvements {F = ℤ} "c" "h" none [] + 1))
evaluate_canary-promote_example =
    evaluate_canary-promote ints scores (config 1) predictions labels [] none now "d1"
      evaluate_better (metrics_of 500 4) (metrics_of 600 5) refl

evaluate_canary-outcome_example :
    IsConsistent better
    × ((better.outcome ≡ insufficient_data)
        ↔ HasFewRows ints scores
            (config 1)
            (window_rows ints scores (config 1) predictions labels now "c")
            (window_rows ints scores (config 1) predictions labels now "h"))
evaluate_canary-outcome_example =
    evaluate_canary-outcome ints scores (config 1) predictions labels [] none now "d1"
      evaluate_better

-- Two improving runs, in the table in the order of their times.
abbrev improving_row : Time → CanaryRow ℤ
improving_row at = record {
  champion_version = "c";
  challenger_version = "h";
  verdict = record better { decision = continue; outcome = improving };
  created_at = at;
}

abbrev two_runs : List (CanaryRow ℤ)
two_runs = improving_row 3 ∷ improving_row 5 ∷ []

abbrev third_run : CanaryDecision ℤ
third_run = record better { reason = better_for (pos 100) 3 }

evaluate_third :
    evaluate_canary ints scores (config 3) predictions labels two_runs none now "d1" ≡ ok third_run
unfolding evaluator
evaluate_third = refl

evaluate_canary-promote_history_example :
    All (λ r. outcome_of r ≡ improving) (take 2 (history "c" "h" two_runs))
    × (3 ≤ length (history "c" "h" two_runs) + 1)
    × (3 ≤ 11)
evaluate_canary-promote_history_example =
    evaluate_canary-promote_history ints scores (config 3) predictions labels two_runs now "d1"
      evaluate_third refl

abbrev late_prediction : Prediction ℤ
late_prediction = prediction 3 "h" 0 900 (2 * hour + 1)

evaluate_canary-unseen_example :
    evaluate_canary ints scores
      (config 1)
      (predictions ++ late_prediction ∷ [])
      (label 3 (2 * hour + 9) ∷ labels)
      []
      none
      now
      "d1"
    ≡ evaluate_canary ints scores (config 1) (predictions ++ []) labels [] none now "d1"
evaluate_canary-unseen_example =
    evaluate_canary-unseen ints scores (config 1) predictions [] late_prediction [] labels
      (label 3 (2 * hour + 9)) [] none now "d1" (inl (inr (omega arith))) (omega arith)
