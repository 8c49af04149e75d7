-- ===== src/Tuning/Script.antt =====
-- training/scripts/tune.py: `main`. The plots are left out; a failure of theirs is only printed.
use fraud_ml_platform.Shared.{ℕ, String, Bool, Option, some, List, Result, ok, raise}
use fraud_ml_platform.Training.Selection.{champion_features}
use fraud_ml_platform.Tuning.Space.{Params}
use fraud_ml_platform.Tuning.Study.{
  TrialState, RunEnd, finished, interrupted, stopped, run_remaining,
}

-- The study and the files.
pub record TuningFiles (F : Type 0) : Type 0 where
  pub study : List TrialState
  pub best_params : Option (Params F)
  pub study_trials : Option (List TrialState)

-- `optimize` is `run_study` on the columns, `best` the study's best parameters and value.
module _ {F : Type 0} (optimize : List String → ℕ → List TrialState → RunEnd × List TrialState)
    (best : List TrialState → Result (Params F × F)) where
  -- What follows the study.
  unfoldable pub write_best : TuningFiles F → RunEnd × TuningFiles F
  write_best files = elim (best files.study) [
    | raise e ↦ (stopped e, files)
    | ok (params, value) ↦
        (finished, record files { best_params = some params; study_trials = some files.study })
  ]

  unfoldable pub main : List (String × Bool) → List String → TuningFiles F → RunEnd × TuningFiles F
  main train_df pruned_features files =
      let feature_cols = champion_features train_df pruned_features in
      let (end, study) = run_remaining (optimize feature_cols) 300 files.study in
      elim end [
        | finished ↦ write_best (record files { study = study })
        | interrupted ↦ (interrupted, record files { study = study })
        | stopped e ↦ (stopped e, record files { study = study })
      ]
