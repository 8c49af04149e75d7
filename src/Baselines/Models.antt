-- ===== src/Baselines/Models.antt =====
-- training/src/baselines.py: the stratified sample, the cross-validation and the four baselines. A
-- table X is its columns, a selection of its rows a list of their places. A column has, for each row,
-- whether it is missing.
use Prim.Native.Nat.{min, max}
use fraud_ml_platform.Shared.{
  ℕ, zero, suc, ◌+◌, ◌-◌, ◌*◌, ◌/◌, String, Bool, not, ◌&&◌, List, [], ◌∷◌, ◌++◌, map, ltb, leb,
  ◌==◌, if◌then◌else◌, length, keep_if, any_of, sum, item, FloatOps, Result, ok, ◌>>=◌,
}
use fraud_ml_platform.Metrics.Scores.{Sklearn}
use fraud_ml_platform.Training.Splits.{Event, fold, warn_dropped, warn_all_dropped, split}

pub record BaselineColumn : Type 0 where
  pub name : String
  pub is_number : Bool
  pub nulls : List Bool

-- `_numeric_cols`
unfoldable pub numeric_cols : List BaselineColumn → List String
numeric_cols X = map (λ c. c.name) (keep_if (λ c. c.is_number && any_of (λ b. not b) c.nulls) X)

-- The places, from the first one on, of the rows with this label.
unfoldable pub places : ℕ → ℕ → List ℕ → List ℕ
places label i [] = []
places label i (y ∷ ys) =
    if y == label then i ∷ places label (i + 1) ys else places label (i + 1) ys

-- The labels, sorted, each once, which are the keys of `groupby`.
unfoldable pub insert_label : ℕ → List ℕ → List ℕ
insert_label y [] = y ∷ []
insert_label y (x ∷ xs) =
    if y == x then x ∷ xs else if ltb y x then y ∷ x ∷ xs else x ∷ insert_label y xs

unfoldable pub label_keys : List ℕ → List ℕ
label_keys [] = []
label_keys (y ∷ ys) = insert_label y (label_keys ys)

-- The size of a group's sample. `int(n * len(g) / len(y))` is the quotient, rounded down: the
-- float's error is less than the distance of a fraction over len(y) to the next integer.
abbrev pub sample_size : ℕ → ℕ → ℕ → ℕ
sample_size n group total = min group (n * group / total)

-- The places of so many rows, from one on.
abbrev pub range : ℕ → ℕ → List ℕ
range i zero = []
range i (suc n) = i ∷ range (i + 1) n

-- `sorted` on places
unfoldable pub insert_place : ℕ → List ℕ → List ℕ
insert_place i [] = i ∷ []
insert_place i (j ∷ js) = if ltb j i then j ∷ insert_place i js else i ∷ j ∷ js

unfoldable pub sort_places : List ℕ → List ℕ
sort_places [] = []
sort_places (i ∷ is) = insert_place i (sort_places is)

-- `g.sample(k, random_state=42)` on the places of a group is a parameter.
module _ (sample : List ℕ → ℕ → List ℕ) where
  unfoldable pub sample_groups : ℕ → List ℕ → List ℕ → List ℕ
  sample_groups n y [] = []
  sample_groups n y (label ∷ labels) =
      let g = places label 0 y in
      sample g (sample_size n (length g) (length y)) ++ sample_groups n y labels

  -- The places of the rows that `_stratified_sample` returns.
  unfoldable pub stratified_sample : List ℕ → ℕ → List ℕ
  stratified_sample y n =
      if leb (length y) n
      then range 0 (length y)
      else sort_places (sample_groups n y (label_keys y))

-- The rows at the places; `iloc`.
abbrev pub at_places : List ℕ → List ℕ → List ℕ
at_places y idx = map (λ i. item i y) idx

-- The cross-validation. `fit` gives the probabilities of the rows to validate on, of a classifier
-- that is fitted to the rows to train on; scikit-learn's scores, mean and std are parameters.
pub record BaselineMetrics (F : Type 0) : Type 0 where
  pub pr_auc : F
  pub roc_auc : F
  pub f1 : F
  pub brier : F

pub record Spread (F : Type 0) : Type 0 where
  pub mean : F
  pub std : F

module _ {F : Type 0} (ops : FloatOps F) (sklearn : Sklearn F) (mean std : List F → F)
    (time_series_split : ℕ → ℕ → Result (List (List ℕ × List ℕ))) where
  -- `_compute_metrics`
  unfoldable pub baseline_metrics : List ℕ → List F → BaselineMetrics F
  baseline_metrics y_true y_prob = record {
    pr_auc = sklearn.average_precision_score y_true y_prob;
    roc_auc = sklearn.roc_auc_score y_true y_prob;
    f1 =
        sklearn.f1_score y_true
          (map (λ p. if ops.fle (ops.fdiv (ops.of_nat 1) (ops.of_nat 2)) p then 1 else 0) y_prob);
    brier = sklearn.brier_score_loss y_true y_prob;
  }

  unfoldable pub fold_metrics :
      (List ℕ → List ℕ → List F) → List ℕ → List Event → List (BaselineMetrics F)
  fold_metrics fit y [] = []
  fold_metrics fit y (fold tr_idx val_idx ∷ events) =
      baseline_metrics (at_places y val_idx) (fit tr_idx val_idx) ∷ fold_metrics fit y events
  fold_metrics fit y (warn_dropped i ∷ events) = fold_metrics fit y events
  fold_metrics fit y (warn_all_dropped ∷ events) = fold_metrics fit y events

  abbrev pub spread : List F → Spread F
  spread vals = record { mean = mean vals; std = std vals }

  -- `_cv_scores`, with a classifier's `fit`, on the labels and the times of the rows
  unfoldable pub cv_scores :
      (List ℕ → List ℕ → List F) → List ℕ → List ℕ → Result (BaselineMetrics (Spread F))
  cv_scores fit y transaction_dt = split time_series_split 5 1 transaction_dt >>= λ events.
      let metrics = fold_metrics fit y events in
      ok (record {
        pr_auc = spread (map (λ m. m.pr_auc) metrics);
        roc_auc = spread (map (λ m. m.roc_auc) metrics);
        f1 = spread (map (λ m. m.f1) metrics);
        brier = spread (map (λ m. m.brier) metrics);
      })

  -- `run_logistic_regression` and `run_random_forest`: a sample of the rows, of the numeric columns.
  -- `fit` is given the columns and the places of the sample.
  unfoldable pub run_sampled :
      (List ℕ → ℕ → List ℕ)
      → ℕ
      → (List String → List ℕ → List ℕ → List ℕ → List F)
      → List BaselineColumn
      → List ℕ
      → List ℕ
      → Result (BaselineMetrics (Spread F))
  run_sampled sample lr_rf_sample fit X y transaction_dt =
      let idx = stratified_sample sample y lr_rf_sample in
      cv_scores (fit (numeric_cols X) idx) (at_places y idx) (at_places transaction_dt idx)

  -- `run_lightgbm` and `run_xgboost_untuned`: all rows, with the weight of the frauds.
  abbrev pub scale_pos_weight : List ℕ → F
  scale_pos_weight y = ops.fdiv (ops.of_nat (length y - sum y)) (ops.of_nat (max (sum y) 1))

  unfoldable pub run_boosted :
      (F → List ℕ → List ℕ → List F) → List ℕ → List ℕ → Result (BaselineMetrics (Spread F))
  run_boosted fit y transaction_dt = cv_scores (fit (scale_pos_weight y)) y transaction_dt
