-- ===== src/Canary/Evaluator.antt =====
-- monitoring/canary/evaluator.py: the metrics of both models, the guardrails, and the verdict.
use fraud_ml_platform.Shared.{
  ℕ, ◌+◌, ◌*◌, String, Bool, ◌&&◌, ◌||◌, Option, none, some, List, map, ltb, leb, if◌then◌else◌,
  length, FloatOps, Result, ok, ◌>>=◌,
}
use fraud_ml_platform.Canary.Query.{LabeledRow, fetch_rows, rows_of}
use fraud_ml_platform.Canary.Streak.{count_consecutive_improvements}
use fraud_ml_platform.Canary.Types.{
  ModelMetrics, Decision, promote, rollback, continue, Outcome, improving, no_signal,
  insufficient_data, rolled_back, promoted, Reason, too_few_labels, no_clear_signal, pr_auc_worse,
  brier_worse, latency_worse, better_for, better_so_far, counts, both, CanaryDecision, CanaryConfig,
  CanaryRow, MetricFunctions,
}
use fraud_ml_platform.Database.{Time, hour, time_minus, Prediction, Label}

module _ {F : Type 0} (fl : FloatOps F) (sk : MetricFunctions F) where
  abbrev pub float_of_bool : Bool → F
  float_of_bool b = if b then fl.of_nat 1 else fl.of_nat 0

  unfoldable pub compute_metrics : List (LabeledRow F) → Result (ModelMetrics F)
  compute_metrics rows = do
    let y_true = map (λ r. float_of_bool r.is_fraud) rows
    let y_prob = map (λ r. r.fraud_probability) rows
    pr_auc ← sk.average_precision_score y_true y_prob
    roc_auc ← sk.roc_auc_score y_true y_prob
    brier_score ← sk.brier_score_loss y_true y_prob
    flag_rate ← sk.mean (map (λ r. r.flagged) rows)
    p95_total_ms ← sk.percentile (map (λ r. r.total_ms) rows) 95
    ok (record {
      n_predictions = length rows;
      pr_auc = pr_auc;
      roc_auc = roc_auc;
      brier_score = brier_score;
      flag_rate = flag_rate;
      p95_total_ms = p95_total_ms;
    })

module _ {F : Type 0} (fl : FloatOps F) (config : CanaryConfig F) where
  abbrev pub pr_delta : ModelMetrics F → ModelMetrics F → F
  pr_delta champ chall = fl.fsub chall.pr_auc champ.pr_auc

  abbrev pub brier_delta : ModelMetrics F → ModelMetrics F → F
  brier_delta champ chall = fl.fsub chall.brier_score champ.brier_score

  abbrev pub latency_ratio : ModelMetrics F → ModelMetrics F → F
  latency_ratio champ chall = fl.fdiv chall.p95_total_ms champ.p95_total_ms

  -- The three checks that roll back, in their order, with the reason that they give.
  unfoldable pub guardrail : ModelMetrics F → ModelMetrics F → Option (Reason F)
  guardrail champ chall =
      if fl.flt (pr_delta champ chall) (fl.fneg config.canary_pr_auc_rollback_delta)
      then some (pr_auc_worse (fl.fabs (pr_delta champ chall)) config.canary_pr_auc_rollback_delta)
      else if fl.flt config.canary_brier_rollback_delta (brier_delta champ chall)
      then some (brier_worse (brier_delta champ chall) config.canary_brier_rollback_delta)
      else if fl.flt (fl.of_nat 0) champ.p95_total_ms
          && fl.flt config.canary_latency_p95_rollback_ratio (latency_ratio champ chall)
      then some (latency_worse chall.p95_total_ms (latency_ratio champ chall) champ.p95_total_ms)
      else none

  -- What is decided from the metrics and the number of improving runs before this one.
  unfoldable pub judge : ModelMetrics F → ModelMetrics F → ℕ → Decision × Outcome × Reason F
  unfolding guardrail
  judge champ chall consecutive = elim (guardrail champ chall) [
    | some reason ↦ (rollback, rolled_back, reason)
    | none ↦
        if fl.flt config.canary_pr_auc_promote_delta (pr_delta champ chall)
        then (if leb config.canary_required_consecutive_runs (consecutive + 1)
            then (promote, promoted, better_for (pr_delta champ chall) (consecutive + 1))
            else (
              continue,
              improving,
              better_so_far (pr_delta champ chall) (consecutive + 1)
                  config.canary_required_consecutive_runs,
            ))
        else (continue, no_signal, no_clear_signal)
  ]

-- The clock's reading `now` and the fresh `decision_id` are arguments.
module _ {F : Type 0} (fl : FloatOps F) (sk : MetricFunctions F) (config : CanaryConfig F) where
  unfoldable pub decide_on :
      List (LabeledRow F)
      → List (LabeledRow F)
      → ℕ
      → Time
      → Time
      → String
      → Result (CanaryDecision F)
  decide_on champ_rows chall_rows consecutive start end id =
      if ltb (length champ_rows) config.canary_min_labeled_predictions
        || ltb (length chall_rows) config.canary_min_labeled_predictions
      then ok (record {
        decision = continue;
        outcome = insufficient_data;
        reason = too_few_labels;
        metrics =
            counts (length champ_rows) (length chall_rows) config.canary_min_labeled_predictions;
        window_start = start;
        window_end = end;
        decision_id = id;
      })
      else (do
        champ_m ← compute_metrics fl sk champ_rows
        chall_m ← compute_metrics fl sk chall_rows
        let (decision, outcome, reason) = judge fl config champ_m chall_m consecutive
        ok (record {
          decision = decision;
          outcome = outcome;
          reason = reason;
          metrics = both champ_m chall_m;
          window_start = start;
          window_end = end;
          decision_id = id;
        }))

  unfoldable pub evaluate_canary :
      List (Prediction F)
      → List Label
      → List (CanaryRow F)
      → Option (List Outcome)
      → Time
      → String
      → Result (CanaryDecision F)
  evaluate_canary predictions labels table prior now id = do
    start ← time_minus now (config.canary_window_hours * hour)
    let champ = config.champion_version
    let chall = config.challenger_version
    let rows = fetch_rows start now champ chall predictions labels
    decide_on (rows_of champ rows) (rows_of chall rows)
        (count_consecutive_improvements champ chall prior table) start now id
