-- ===== src/Training/Splits.antt =====
-- training/src/splits.py. scikit-learn's TimeSeriesSplit is a parameter: the folds for a number of
-- splits and of rows, or its exception. The column transaction_dt is a list of seconds.
-- What the generator does, in its order.
use Prim.Native.Nat.{max}
use fraud_ml_platform.Shared.{
  ℕ, ◌+◌, ◌*◌, Bool, false, Option, none, some, List, [], ◌∷◌, leb, ◌==◌, if◌then◌else◌, length,
  keep_if, item, Result, ok, ◌>>=◌,
}

pub data Event : Type 0 where
  fold : List ℕ → List ℕ → Event
  -- "fold .. dropped"
  warn_dropped : ℕ → Event
  -- "every fold was dropped"
  warn_all_dropped : Event

-- `transaction_dt.iloc[train_idx].max()`; with no rows it is NaN.
abbrev pub max_at : List ℕ → List ℕ → Option ℕ
max_at dt [] = none
max_at dt (i ∷ is) = elim (max_at dt is) [
  | none ↦ some (item i dt)
  | some m ↦ some (max (item i dt) m)
]

-- The rows of `val_mask`; a comparison with NaN is false.
abbrev pub is_past_gap : List ℕ → ℕ → Option ℕ → ℕ → Bool
is_past_gap dt gap_seconds none i = false
is_past_gap dt gap_seconds (some train_dt_max) i = leb (train_dt_max + gap_seconds) (item i dt)

unfoldable pub purge : List ℕ → ℕ → List ℕ → List ℕ → List ℕ
purge dt gap_seconds train_idx val_idx =
    keep_if (is_past_gap dt gap_seconds (max_at dt train_idx)) val_idx

-- The `for` loop, from a fold's number, with the number of skipped folds, and the warning behind it.
unfoldable pub split_folds : List ℕ → ℕ → ℕ → ℕ → ℕ → List (List ℕ × List ℕ) → List Event
split_folds dt gap_seconds n_splits fold_i skipped [] =
    if skipped == n_splits then warn_all_dropped ∷ [] else []
split_folds dt gap_seconds n_splits fold_i skipped ((train_idx, val_idx) ∷ folds) =
    let purged_val = purge dt gap_seconds train_idx val_idx in
    let dropped =
      warn_dropped fold_i ∷ split_folds dt gap_seconds n_splits (fold_i + 1) (skipped + 1) folds in
    let kept =
      fold train_idx purged_val ∷ split_folds dt gap_seconds n_splits (fold_i + 1) skipped folds in
    if length purged_val == 0 then dropped else kept

unfoldable pub split :
    (ℕ → ℕ → Result (List (List ℕ × List ℕ))) → ℕ → ℕ → List ℕ → Result (List Event)
split time_series_split n_splits gap_days dt = time_series_split n_splits (length dt) >>= λ folds.
    ok (split_folds dt (gap_days * 86400) n_splits 0 0 folds)
