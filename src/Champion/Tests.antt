-- ===== src/Champion/Tests.antt =====
-- An evaluation of ten rows, and the property at it. Floats are integers.
use fraud_ml_platform.Shared.{
  ℕ, ◌%◌, String, ◌≡◌, refl, false, none, List, [], ◌∷◌, map, length, take, drop, sum, ℤ, pos,
  Result, ok,
}
use fraud_ml_platform.Champion.Evaluate.{
  Xgboost, fit_xgboost, EvaluationFiles, final_fit, evaluated, evaluate,
}
use fraud_ml_platform.Champion.Holdout.{IsHeldOut, evaluate-IsHeldOut}
use fraud_ml_platform.Metrics.Scores.{
  predictions, compute_metrics, Sklearn, predict_proba, calibrate,
}
use fraud_ml_platform.Metrics.Thresholds.{
  Curve, f1_scores, argmax_from, argmax, max_of, masked, find_optimal_threshold,
  recall_at_precision, precision_at_recall,
}
use fraud_ml_platform.Samples.{ints}
use fraud_ml_platform.Training.Preprocess.{Row, insert_row, sort_rows, temporal_split}
use fraud_ml_platform.Training.Selection.{champion_features}

abbrev ten_rows : List (Row ℕ)
ten_rows =
    map (λ i. record { transaction_dt = i; content = i % 2 })
      (10 ∷ 20 ∷ 30 ∷ 40 ∷ 51 ∷ 61 ∷ 70 ∷ 80 ∷ 91 ∷ 100 ∷ [])

abbrev some_curve : List ℕ → List ℤ → Curve ℤ
some_curve y_true y_prob = record {
  precision = pos 40 ∷ pos 80 ∷ pos 100 ∷ [];
  recall = pos 100 ∷ pos 90 ∷ pos 0 ∷ [];
  thresholds = pos 3 ∷ pos 7 ∷ [];
}

abbrev some_scores : Sklearn ℤ
some_scores = record {
  average_precision_score = λ y p. pos (length p);
  roc_auc_score = λ y p. pos (length y);
  f1_score = λ y z. pos (sum z);
  brier_score_loss = λ y p. pos 0;
  precision_recall_curve = some_curve;
}

-- A model is the number of rows that it is fitted to, and gives each row its features.
abbrev counting_model : Xgboost ℤ ℕ ℕ ℕ
counting_model = record {
  fit = λ params X y X_val y_val. length X;
  probability = λ m x. pos x;
  fit_isotonic = λ probs y. length y;
  predict_isotonic = λ c p. p;
}

abbrev dt_features : List String → Row ℕ → ℕ
dt_features cols r = r.transaction_dt

abbrev is_fraud : Row ℕ → ℕ
is_fraud r = r.content

abbrev no_files : EvaluationFiles ℤ ℕ
no_files = record { final_model = none; results = none }

abbrev evaluation : Result (Unit {0}) × EvaluationFiles ℤ ℕ
evaluation =
    evaluate ints some_scores counting_model "cpu" dt_features is_fraud
      (("card1", false) ∷ ("day", false) ∷ []) ("card1" ∷ "day" ∷ []) [] (take 8 ten_rows)
      (drop 8 ten_rows) no_files

ten_rows-split : temporal_split ten_rows ≡ ok (take 8 ten_rows, drop 8 ten_rows)
unfolding temporal_split sort_rows insert_row
ten_rows-split = refl

evaluation_ends : evaluation ≡ (ok tt, evaluation.1)
unfolding evaluate evaluated final_fit fit_xgboost find_optimal_threshold argmax argmax_from
    f1_scores max_of masked recall_at_precision precision_at_recall compute_metrics predictions
    calibrate predict_proba
evaluation_ends = refl

evaluate-IsHeldOut_example :
    IsHeldOut ints some_scores counting_model "cpu" dt_features is_fraud
      (champion_features (("card1", false) ∷ ("day", false) ∷ []) ("card1" ∷ "day" ∷ []))
      []
      (take 8 ten_rows)
      (drop 8 ten_rows)
      evaluation.1
evaluate-IsHeldOut_example =
    evaluate-IsHeldOut ints some_scores counting_model "cpu" dt_features is_fraud
      (("card1", false) ∷ ("day", false) ∷ []) ("card1" ∷ "day" ∷ []) [] ten_rows (take 8 ten_rows)
      (drop 8 ten_rows) no_files evaluation.1 ten_rows-split evaluation_ends
