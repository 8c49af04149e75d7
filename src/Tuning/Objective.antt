-- ===== src/Tuning/Objective.antt =====
-- training/src/tune.py: `_objective`. A trial is scored on one fold after the other; the mean so far is
-- reported, and the trial may be pruned. numpy's mean, the pruner and the fits are parameters.
use fraud_ml_platform.Shared.{
  ℕ, ◌+◌, String, Bool, true, false, List, [], ◌∷◌, ◌++◌, map, if◌then◌else◌, FloatOps, Exception,
  Result, ok, raise,
}
use fraud_ml_platform.Training.Splits.{Event, fold, warn_dropped, warn_all_dropped, split}
use fraud_ml_platform.Tuning.Space.{
  ParamValue, Params, Suggestion, suggest_int, suggest_int_step, suggest_float, ratio,
}

-- How the objective of a trial ends.
pub data TrialEnd (F : Type 0) : Type 0 where
  returns : F → TrialEnd F
  prunes : TrialEnd F
  raises : Exception → TrialEnd F

-- What the trial suggests.
module _ {F : Type 0} (ops : FloatOps F) where
  abbrev pub xgb_search_space : List (String × Suggestion F)
  xgb_search_space =
      ("max_depth", suggest_int 3 15)
      ∷ ("learning_rate", suggest_float (ratio ops 1 100) (ratio ops 3 10) true)
      ∷ ("n_estimators", suggest_int 200 3000)
      ∷ ("subsample", suggest_float (ratio ops 1 2) (ratio ops 1 1) false)
      ∷ ("colsample_bytree", suggest_float (ratio ops 1 2) (ratio ops 1 1) false)
      ∷ ("min_child_weight", suggest_int 1 50)
      ∷ ("gamma", suggest_float (ratio ops 0 1) (ratio ops 5 1) false)
      ∷ ("reg_alpha", suggest_float (ratio ops 1 100000000) (ratio ops 10 1) true)
      ∷ ("reg_lambda", suggest_float (ratio ops 1 100000000) (ratio ops 10 1) true)
      ∷ ("max_bin", suggest_int_step 512 768 64)
      ∷ ("scale_pos_weight", suggest_float (ratio ops 1 1) (ratio ops 50 1) true)
      ∷ ("max_delta_step", suggest_int 0 10)
      ∷ []

  abbrev pub suggested : (String → Suggestion F → ParamValue F) → Params F
  suggested trial = map (λ s. (s.0, trial s.0 s.1)) xgb_search_space

-- The score of a fold is `average_precision_score` on its rows to validate on, of a model that is
-- fitted to its rows to train on, with the parameters.
module _ {F : Type 0} (mean : List F → F) (score : List ℕ → List ℕ → F)
    (should_prune : List (F × ℕ) → Bool) where
  -- The loop, with the number of the next fold, the scores and the reports so far.
  unfoldable pub score_folds : ℕ → List F → List (F × ℕ) → List Event → TrialEnd F × List (F × ℕ)
  score_folds n pr_aucs reports [] = (returns (mean pr_aucs), reports)
  score_folds n pr_aucs reports (fold tr_idx val_idx ∷ events) =
      let pr_aucs' = pr_aucs ++ score tr_idx val_idx ∷ [] in
      let reports' = reports ++ (mean pr_aucs', n) ∷ [] in
      let rest = score_folds (n + 1) pr_aucs' reports' events in
      if should_prune reports' then (prunes, reports') else rest
  score_folds n pr_aucs reports (warn_dropped i ∷ events) = score_folds n pr_aucs reports events
  score_folds n pr_aucs reports (warn_all_dropped ∷ events) = score_folds n pr_aucs reports events

  -- `_objective`, with scikit-learn's folds.
  unfoldable pub fold_objective :
      (ℕ → ℕ → Result (List (List ℕ × List ℕ))) → ℕ → List ℕ → TrialEnd F × List (F × ℕ)
  fold_objective time_series_split n_splits transaction_dt =
      elim (split time_series_split n_splits 1 transaction_dt) [
        | raise e ↦ (raises e, [])
        | ok events ↦ score_folds 0 [] [] events
      ]
