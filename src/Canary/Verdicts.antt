-- ===== src/Canary/Verdicts.antt =====
-- What the verdict of an evaluation says of the metrics it was made from.
use fraud_ml_platform.Shared.{
  ℕ, ◌+◌, ◌-◌, ◌*◌, ◌≤◌, ◌<◌, String, ◌≡◌, sym, ◌∙◌, ◌≢◌, ◌↔◌, ◌⊎◌, inl, inr, true, ◌||◌, Option,
  List, arith, ltb, Bool-cases, length, FloatOps, ok, >>=-eq-ok,
}
use fraud_ml_platform.Canary.Evaluator.{
  compute_metrics, pr_delta, brier_delta, latency_ratio, judge, decide_on, evaluate_canary,
}
use fraud_ml_platform.Canary.Query.{LabeledRow, fetch_rows, rows_of}
use fraud_ml_platform.Canary.Streak.{count_consecutive_improvements}
use fraud_ml_platform.Canary.Types.{
  ModelMetrics, Decision, promote, rollback, continue, Outcome, improving, no_signal,
  insufficient_data, rolled_back, promoted, counts, both, CanaryDecision, CanaryConfig, CanaryRow,
  MetricFunctions,
}
use fraud_ml_platform.Database.{Time, hour, time_minus, Prediction, Label}

-- The outcomes that a decision may have.
abbrev pub Agrees : Decision → Outcome → Type 0
Agrees promote o = o ≡ promoted
Agrees rollback o = o ≡ rolled_back
Agrees continue o = (o ≡ improving) ⊎ ((o ≡ no_signal) ⊎ (o ≡ insufficient_data))

abbrev pub IsConsistent : {F : Type 0} → CanaryDecision F → Type 0
IsConsistent d = Agrees d.decision d.outcome

module _ {F : Type 0} (fl : FloatOps F) (config : CanaryConfig F) where
  -- One of the three guardrails is crossed: ranking quality, calibration, or tail latency.
  abbrev pub IsHarmful : ModelMetrics F → ModelMetrics F → Type 0
  IsHarmful champ chall =
      (fl.flt (pr_delta fl config champ chall) (fl.fneg config.canary_pr_auc_rollback_delta) ≡ true)
      ⊎ ((fl.flt config.canary_brier_rollback_delta (brier_delta fl config champ chall) ≡ true)
          ⊎ ((fl.flt (fl.of_nat 0) champ.p95_total_ms ≡ true)
              × (fl.flt config.canary_latency_p95_rollback_ratio
                    (latency_ratio fl config champ chall)
                  ≡ true)))

  abbrev pub IsBetter : ModelMetrics F → ModelMetrics F → Type 0
  IsBetter champ chall =
      fl.flt config.canary_pr_auc_promote_delta (pr_delta fl config champ chall) ≡ true

  judge-rollback :
      (champ chall : ModelMetrics F) (n : ℕ)
      → ((judge fl config champ chall n).0 ≡ rollback) ↔ IsHarmful champ chall
  unfolding judge
  judge-rollback champ chall n = ground arith

  judge-promote :
      (champ chall : ModelMetrics F) (n : ℕ)
      → ((judge fl config champ chall n).0 ≡ promote) ↔ (
          (¬ IsHarmful champ chall)
          × IsBetter champ chall
          × (config.canary_required_consecutive_runs ≤ n + 1))
  unfolding judge
  judge-promote champ chall n = ground arith

  judge-IsConsistent :
      (champ chall : ModelMetrics F) (n : ℕ)
      → Agrees (judge fl config champ chall n).0 (judge fl config champ chall n).1
        × ((judge fl config champ chall n).1 ≢ insufficient_data)
  unfolding judge
  judge-IsConsistent champ chall n = ground arith

module _ {F : Type 0} (fl : FloatOps F) (sk : MetricFunctions F) (config : CanaryConfig F) where
  -- The window of an evaluation at `now`, and the rows of each model in it.
  abbrev pub window_rows : List (Prediction F) → List Label → Time → String → List (LabeledRow F)
  window_rows predictions labels now version = rows_of version (
      fetch_rows (now - config.canary_window_hours * hour) now config.champion_version
        config.challenger_version predictions labels)

  abbrev pub HasFewRows : List (LabeledRow F) → List (LabeledRow F) → Type 0
  HasFewRows champ_rows chall_rows =
      (length champ_rows < config.canary_min_labeled_predictions)
      ⊎ (length chall_rows < config.canary_min_labeled_predictions)

  -- A decision that was made from the metrics of both models.
  pub record IsJudged (champ_rows chall_rows : List (LabeledRow F)) (n : ℕ) (d : CanaryDecision F)
      : Type 0 where
    pub champion : ModelMetrics F
    pub challenger : ModelMetrics F
    pub champion_computed : compute_metrics fl sk champ_rows ≡ ok champion
    pub challenger_computed : compute_metrics fl sk chall_rows ≡ ok challenger
    pub recorded : d.metrics ≡ both champion challenger
    pub decision_lem : d.decision ≡ (judge fl config champion challenger n).0
    pub outcome_lem : d.outcome ≡ (judge fl config champion challenger n).1
    pub reason_lem : d.reason ≡ (judge fl config champion challenger n).2
    pub enough : ¬ HasFewRows champ_rows chall_rows

  pub decide_on-cases :
      (champ_rows chall_rows : List (LabeledRow F)) (n : ℕ) (start end : Time) (id : String)
      {d : CanaryDecision F}
      → decide_on fl sk config champ_rows chall_rows n start end id ≡ ok d
      → (HasFewRows champ_rows chall_rows
          × (d.decision ≡ continue)
          × (d.outcome ≡ insufficient_data)
          × (d.metrics
              ≡ counts
                  (length champ_rows)
                  (length chall_rows)
                  config.canary_min_labeled_predictions))
        ⊎ IsJudged champ_rows chall_rows n d
  unfolding decide_on
  decide_on-cases champ_rows chall_rows n start end id h =
      elim (Bool-cases (
        ltb (length champ_rows) config.canary_min_labeled_predictions
        || ltb (length chall_rows) config.canary_min_labeled_predictions)) [
          | inl few ↦
              inl
                (ground (arith, few), ground (arith, few), ground (arith, few), ground (arith, few))
          | inr enough ↦
              let (champ, e1, h1) =
                >>=-eq-ok (compute_metrics fl sk champ_rows) _ (rw enough at h) in
              let (chall, e2, h2) = >>=-eq-ok (compute_metrics fl sk chall_rows) _ h1 in
              inr (record {
                champion = champ;
                challenger = chall;
                champion_computed = e1;
                challenger_computed = e2;
                recorded = ground (arith, h2);
                decision_lem = ground (arith, h2);
                outcome_lem = ground (arith, h2);
                reason_lem = ground (arith, h2);
                enough = ground (arith, enough);
              })
        ]

  time_minus-ok : (t d : Time) {s : Time} → time_minus t d ≡ ok s → s ≡ t - d
  unfolding time_minus
  time_minus-ok t d h = ground arith

  module _ (predictions : List (Prediction F)) (labels : List Label) (table : List (CanaryRow F))
      (prior : Option (List Outcome)) (now : Time) (id : String) {d : CanaryDecision F}
      (returned : evaluate_canary fl sk config predictions labels table prior now id ≡ ok d) where
    abbrev champ_window : List (LabeledRow F)
    champ_window = window_rows predictions labels now config.champion_version

    abbrev chall_window : List (LabeledRow F)
    chall_window = window_rows predictions labels now config.challenger_version

    abbrev runs_before : ℕ
    runs_before =
        count_consecutive_improvements config.champion_version config.challenger_version prior table

    pub evaluate_canary-cases :
        (HasFewRows champ_window chall_window
          × (d.decision ≡ continue)
          × (d.outcome ≡ insufficient_data)
          × (d.metrics
              ≡ counts
                  (length champ_window)
                  (length chall_window)
                  config.canary_min_labeled_predictions))
        ⊎ IsJudged champ_window chall_window runs_before d
    unfolding evaluate_canary
    evaluate_canary-cases =
        let (start, e, h) =
          >>=-eq-ok (time_minus now (config.canary_window_hours * hour)) _ returned in
        decide_on-cases champ_window chall_window runs_before
          (now - config.canary_window_hours * hour) now id
          (rw (time_minus-ok now (config.canary_window_hours * hour) e) at h)

    judged_by :
        (champ chall : ModelMetrics F)
        → d.metrics ≡ both champ chall
        → (d.decision ≡ (judge fl config champ chall runs_before).0)
          × (d.outcome ≡ (judge fl config champ chall runs_before).1)
          × (¬ HasFewRows champ_window chall_window)
    judged_by champ chall recorded = elim evaluate_canary-cases [
      | inl few ↦ cc (few.3, recorded)
      | inr j ↦ (
        cc (j.recorded, recorded, j.decision_lem),
        cc (j.recorded, recorded, j.outcome_lem),
        j.enough,
      )
    ]

    -- An evaluation whose payload has the metrics of both models rolls back exactly when a guardrail
    -- is crossed: the challenger's PR-AUC is lower by more than the rollback delta, its Brier score
    -- is higher by more than its delta, or its p95 is too large a multiple of a positive champion's.
    pub evaluate_canary-rollback :
        (champ chall : ModelMetrics F)
        → d.metrics ≡ both champ chall
        → (d.decision ≡ rollback) ↔ IsHarmful fl config champ chall
    evaluate_canary-rollback champ chall recorded =
        rw (judged_by champ chall recorded).0 (judge-rollback fl config champ chall runs_before)

    -- An evaluation whose payload has the metrics of both models promotes exactly when no guardrail
    -- is crossed, the challenger's PR-AUC is higher by more than the promote delta, and this run
    -- completes the required number of consecutive improving runs.
    pub evaluate_canary-promote :
        (champ chall : ModelMetrics F)
        → d.metrics ≡ both champ chall
        → (d.decision ≡ promote) ↔ (
            (¬ IsHarmful fl config champ chall)
            × IsBetter fl config champ chall
            × (config.canary_required_consecutive_runs ≤ runs_before + 1))
    evaluate_canary-promote champ chall recorded =
        rw (judged_by champ chall recorded).0 (judge-promote fl config champ chall runs_before)

    -- Decision and outcome always agree: promote goes with promoted, rollback with rolled_back, and
    -- continue with improving, no_signal or insufficient_data. The last is reported exactly when one
    -- of the two models has fewer labelled predictions in the window than the minimum.
    pub evaluate_canary-outcome :
        IsConsistent d × ((d.outcome ≡ insufficient_data) ↔ HasFewRows champ_window chall_window)
    evaluate_canary-outcome = elim evaluate_canary-cases [
      | inl few ↦ (ground (arith, few), (λ _. few.0, λ _. few.2))
      | inr j ↦
          let agrees = judge-IsConsistent fl config j.champion j.challenger runs_before in
          (
            rw (j.decision_lem, j.outcome_lem) agrees.0,
            (λ e. absurd (agrees.1 (sym j.outcome_lem ∙ e)), λ few. absurd (j.enough few)),
          )
    ]

    -- A promotion is always made from enough rows and a complete run of improving evaluations.
    pub promotes_after :
        d.decision ≡ promote
        → (¬ HasFewRows champ_window chall_window)
          × (config.canary_required_consecutive_runs ≤ runs_before + 1)
    promotes_after e = elim evaluate_canary-cases [
      | inl few ↦ cc (few.1, e)
      | inr j ↦ (
        j.enough,
        ((judge-promote fl config j.champion j.challenger runs_before).0
            (sym j.decision_lem ∙ e)).2,
      )
    ]
