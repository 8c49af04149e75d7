-- ===== src/Shadow/Tests.antt =====
-- Concrete summaries, over integers, and the theorems at them.
use fraud_ml_platform.Shared.{
  ℕ, ◌+◌, ◌*◌, ◌≡◌, refl, Bool, true, false, Option, none, some, List, [], ◌∷◌, length, keep_if, ℤ,
  pos, Result, ok,
}
use fraud_ml_platform.Database.{Time, hour, time_minus}
use fraud_ml_platform.Samples.{ints}
use fraud_ml_platform.Shadow.Comparator.{
  Comparison, Summary, Statistics, deterministic_summary_id, in_window, confusion_of,
  insert_summary, correlation_of, summarize, summary_of, compute_shadow_summary,
}
use fraud_ml_platform.Shadow.Summaries.{IsSummary, compute_shadow_summary-IsSummary}

abbrev total : List ℤ → ℤ
total [] = pos 0
total (x ∷ xs) = ints.fadd x (total xs)

abbrev statistics : Statistics ℤ
statistics = record {
  std = total;
  corrcoef = λ xs ys. pos (length xs);
  percentile = λ xs q. total xs;
}

abbrev compared : ℕ → ℕ → Bool → Bool → Time → Comparison ℤ
compared a b champ chall at_time = record {
  champion_probability = pos a;
  challenger_probability = pos b;
  champion_flagged = champ;
  challenger_flagged = chall;
  created_at = at_time;
}

abbrev rows : List (Comparison ℤ)
rows =
    compared 4 6 true true (2 * hour)
    ∷ compared 4 1 true false (2 * hour)
    ∷ compared 2 2 false false (2 * hour)
    ∷ compared 9 9 true true 0
    ∷ []

abbrev at_two : List (Summary ℤ) → Result (Option (Summary ℤ)) × List (Summary ℤ)
at_two = compute_shadow_summary ints statistics (λ _. "t") (λ s. s) 1 (2 * hour) rows

abbrev summary : Summary ℤ
summary = record {
  summary_id = "t|t";
  window_start = hour;
  window_end = 2 * hour;
  n_comparisons = 3;
  correlation = some (pos 3);
  disagreement_rate = pos 0;
  abs_diff_p50 = pos 5;
  abs_diff_p95 = pos 5;
  abs_diff_p99 = pos 5;
  confusion = record { tp = 1; fp = 0; fn = 1; tn = 1 };
}

run : Unit {0}
unfolding compute_shadow_summary summary_of summarize correlation_of confusion_of time_minus
    deterministic_summary_id insert_summary
run = tt

at_two_result : (at_two []).0 ≡ ok (some summary)
unfolding run
at_two_result = refl

empty_window :
    compute_shadow_summary ints statistics (λ _. "t") (λ s. s) 1 (9 * hour) rows [] ≡ (ok none, [])
unfolding run
empty_window = refl

compute_shadow_summary-IsSummary_example :
    (start : Time) × (start + 1 * hour ≡ 2 * hour)
    × IsSummary ints statistics
        (λ _. "t")
        (λ s. s)
        start
        (2 * hour)
        (keep_if (in_window start (2 * hour)) rows)
        summary
compute_shadow_summary-IsSummary_example =
    compute_shadow_summary-IsSummary ints statistics (λ _. "t") (λ s. s) 1 (2 * hour) rows []
      summary at_two_result
