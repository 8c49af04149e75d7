-- ===== src/Drift/Tests.antt =====
-- Concrete drift checks, over integers, and the theorems at them.
use fraud_ml_platform.Shared.{
  ℕ, zero, suc, ◌-◌, ◌*◌, String, ◌≡◌, refl, false, Option, some, List, [], ◌∷◌, ◌++◌, map, arith,
  length, keep_if, replicate, sum, item, increment, ℤ, pos, value_error, Result, ok, raise,
}
use fraud_ml_platform.Database.{Time, hour, time_minus, Prediction}
use fraud_ml_platform.Drift.Buckets.{bucket, count_hashes, bucket_counts, falls_in, is_counted}
use fraud_ml_platform.Drift.Counts.{bucket_counts-tally}
use fraud_ml_platform.Drift.Detectors.{
  Numpy, widen_edges, compute_psi, compute_ks, compute_js_on_hashes,
}
use fraud_ml_platform.Drift.Edges.{last, IsLinspace}
use fraud_ml_platform.Drift.Runner.{
  DriftAlert, DriftConfig, deterministic_alert_id, Windows, insert_oldest, oldest_first,
  fetch_windows, write_alerts, psi_alerts, ks_alerts, js_alerts, detect, check_windows,
  run_drift_check, detector_rounds,
}
use fraud_ml_platform.Samples.{ints}

abbrev sum_ints : List ℤ → ℤ
sum_ints [] = pos 0
sum_ints (x ∷ xs) = ints.fadd x (sum_ints xs)

-- Simple functions in the place of numpy's and scipy's.
abbrev percentile_of : List ℤ → List ℤ → Result (List ℤ)
percentile_of [] qs = raise value_error
percentile_of (x ∷ xs) qs = ok (x ∷ xs)

abbrev line : ℤ → ℤ → ℕ → List ℤ
line lo hi n = lo ∷ replicate (n - 2) lo ++ hi ∷ []

abbrev numpy : Numpy ℤ
numpy = record {
  percentile = percentile_of;
  linspace = line;
  unique = λ xs. xs;
  histogram = λ xs edges. length xs ∷ [];
  log = λ x. x;
  fsum = sum_ints;
  ks_2samp = λ xs ys. ok (pos 5, pos 0);
  jensenshannon = λ xs ys. pos 0;
}

abbrev config : DriftConfig ℤ
config = record {
  recent_window_hours = 1;
  min_samples = 2;
  psi_warning_threshold = pos 0;
  psi_critical_threshold = pos 9;
  ks_pvalue_threshold = pos 1;
  ks_statistic_threshold = pos 2;
  js_threshold = pos 3;
}

abbrev scored : ℕ → String → Time → Prediction ℤ
scored n hash at_time = record {
  transaction_id = n;
  model_version = "v1";
  fraud_probability = pos n;
  flagged = false;
  features_hash = hash;
  total_ms = pos 1;
  created_at = at_time;
}

abbrev table_rows : List (Prediction ℤ)
table_rows =
    scored 1 "a0ff" 5
    ∷ scored 2 "a001" 3
    ∷ scored 3 "0012" (2 * hour)
    ∷ scored 4 "ff" (hour * 2)
    ∷ []

abbrev checked :
    Time → List (DriftAlert ℤ) → Result (Option (List (DriftAlert ℤ))) × List (DriftAlert ℤ)
checked time = run_drift_check ints numpy (λ _. "t") (λ s. s) config 0 10 time table_rows

run : Unit {0}
unfolding run_drift_check check_windows detect psi_alerts ks_alerts js_alerts fetch_windows
    oldest_first insert_oldest compute_psi compute_ks compute_js_on_hashes bucket_counts
    count_hashes bucket widen_edges time_minus write_alerts deterministic_alert_id detector_rounds
run = tt

abbrev names_of : Result (Option (List (DriftAlert ℤ))) → List (String × String)
names_of (ok (some alerts)) = map (λ a. (a.alert_id, a.severity)) alerts
names_of _ = []

two_alerts :
    names_of (checked (2 * hour) []).0 ≡ ("psi|t|t", "warning") ∷ ("ks|t|t", "warning") ∷ []
unfolding run
two_alerts = refl

abbrev hashes : List String
hashes = "a0ff" ∷ "A001" ∷ "f" ∷ "+7" ∷ "-1ab" ∷ []

abbrev tally : List ℕ
tally = increment 255 (increment 7 (increment 160 (increment 160 (replicate 256 0))))

bucket_counts-tally_example :
    (length tally ≡ 256)
    × (sum tally ≡ length (keep_if is_counted hashes))
    × ((i : ℕ) → item i tally ≡ length (keep_if (falls_in i) hashes))
bucket_counts-tally_example = bucket_counts-tally hashes tally (unfold run in refl)

no_hash : bucket_counts ("zz" ∷ []) ≡ raise value_error
unfolding run
no_hash = refl

abbrev windows : Windows
windows = record {
  reference_start = 0;
  reference_end = 10;
  recent_start = hour;
  recent_end = 2 * hour;
}

line-IsLinspace : IsLinspace line
line-IsLinspace lo hi n h = (refl, ends (n - 2) lo, omega (arith, size (n - 2), h))
  where
    ends : (k : ℕ) (x : ℤ) → last (x ∷ replicate k lo ++ hi ∷ []) ≡ some hi
    ends zero x = refl
    ends (suc k) x = ends k lo

    size : (k : ℕ) → length (replicate k lo ++ hi ∷ []) ≡ suc k
    size zero = refl
    size (suc k) = omega (arith, size k)

ints-irreflexive : (n : ℕ) → ints.flt (ints.of_nat n) (ints.of_nat n) ≡ false
ints-irreflexive n = ground arith

abbrev found : Result (Option (List (DriftAlert ℤ))) → List (DriftAlert ℤ)
found (ok (some alerts)) = alerts
found _ = []

abbrev two_rounds : List (Time × List (Prediction ℤ))
two_rounds = (2 * hour, table_rows) ∷ (9 * hour, table_rows) ∷ []
