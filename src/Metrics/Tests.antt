-- ===== src/Metrics/Tests.antt =====
-- Thresholds and scores of a small curve, in percent, and the properties at it.
use fraud_ml_platform.Shared.{ℕ, ◌≡◌, refl, List, [], ◌∷◌, arith, length, ℤ, pos, ok}
use fraud_ml_platform.Metrics.Bounds.{IsLargest, recall_at_precision-IsLargest}
use fraud_ml_platform.Metrics.Optimum.{IsStrict, IsCurve, IsBest, find_optimal_threshold-IsBest}
use fraud_ml_platform.Metrics.Scores.{predict_proba, calibrate}
use fraud_ml_platform.Metrics.Thresholds.{
  Curve, f1_scores, argmax_from, argmax, masked, find_optimal_threshold, recall_at_precision,
}
use fraud_ml_platform.Samples.{ints}

-- Two thresholds; the scores end with precision 100 and recall 0.
abbrev three_points : List ℕ → List ℤ → Curve ℤ
three_points y_true y_prob = record {
  precision = pos 40 ∷ pos 80 ∷ pos 100 ∷ [];
  recall = pos 100 ∷ pos 90 ∷ pos 0 ∷ [];
  thresholds = pos 3 ∷ pos 7 ∷ [];
}

ints-IsStrict : IsStrict ints
ints-IsStrict = record {
  irreflexive = λ x. ground arith;
  transitive = λ x y z h k. ground arith;
  weak = λ x y z n h. ground arith;
}

three_points-IsCurve : IsCurve (three_points [] [])
three_points-IsCurve = record {
  some_threshold = omega arith;
  precision_size = refl;
  recall_size = refl;
}

second_best : find_optimal_threshold ints three_points [] [] ≡ ok (pos 7)
unfolding find_optimal_threshold argmax argmax_from f1_scores
second_best = refl

calibrated :
    calibrate ints (λ (c : ℕ) p. pos c) (λ probs ys. length ys) (λ (x : ℤ). x) [] (1 ∷ []) (pos 5)
    ≡ (pos 0, pos 1)
unfolding calibrate predict_proba
calibrated = refl

find_optimal_threshold-IsBest_example :
    (threshold : ℤ) × (find_optimal_threshold ints three_points [] [] ≡ ok threshold)
    × IsBest ints (three_points [] []) threshold
find_optimal_threshold-IsBest_example =
    find_optimal_threshold-IsBest ints ints-IsStrict three_points [] [] three_points-IsCurve
      (unfold f1_scores in (refl, (refl, tt)))

recall_at_precision-IsLargest_example :
    (result : ℤ) × (recall_at_precision ints three_points [] [] (pos 75) ≡ ok result)
    × IsLargest ints (pos 75) (three_points [] []).precision (three_points [] []).recall result
recall_at_precision-IsLargest_example =
    recall_at_precision-IsLargest ints ints-IsStrict three_points [] [] three_points-IsCurve
      (pos 75) (unfold masked in (refl, (refl, tt)))
