-- ===== src/Tuning/Study.antt =====
-- training/scripts/tune.py and monitoring/scripts/train_challenger.py: how many trials a run adds to
-- a study that is kept on disk. A study is the list of its trials, oldest first; `study.optimize` is
-- optuna's and stands as a parameter.
use fraud_ml_platform.Shared.{
  ℕ, zero, suc, ◌-◌, ◌≢◌, Bool, true, false, List, ltb, if◌then◌else◌, length, keep_if, Exception,
}

pub data TrialState : Type 0 where
  complete pruned fail running : TrialState

-- How a run of the script ends.
pub data RunEnd : Type 0 where
  finished interrupted : RunEnd
  stopped : Exception → RunEnd

abbrev pub is_complete : TrialState → Bool
is_complete complete = true
is_complete _ = false

-- `len([t for t in study.trials if t.state == COMPLETE])`
unfoldable pub n_complete : List TrialState → ℕ
n_complete study = length (keep_if is_complete study)

-- `max(0, N_TRIALS - completed)`
unfoldable pub n_remaining : ℕ → List TrialState → ℕ
n_remaining n_trials study = n_trials - n_complete study

-- The part of `main` that runs the study; both scripts ask for 300 trials.
unfoldable pub run_remaining :
    (ℕ → List TrialState → RunEnd × List TrialState)
    → ℕ
    → List TrialState
    → RunEnd × List TrialState
run_remaining optimize n_trials study =
    if ltb 0 (n_remaining n_trials study)
    then optimize (n_remaining n_trials study) study
    else (finished, study)

-- The script, run so many times, each time on the study that the run before has left.
unfoldable pub resume :
    (ℕ → List TrialState → RunEnd × List TrialState) → ℕ → ℕ → List TrialState → List TrialState
resume optimize n_trials zero study = study
resume optimize n_trials (suc runs) study =
    resume optimize n_trials runs (run_remaining optimize n_trials study).1

pub stopped≢finished : {e : Exception} → stopped e ≢ finished
stopped≢finished h = cc

pub interrupted≢finished : interrupted ≢ finished
interrupted≢finished h = cc
