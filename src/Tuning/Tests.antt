-- ===== src/Tuning/Tests.antt =====
-- Runs on small studies, and the properties at concrete inputs.
use fraud_ml_platform.Tuning.Script
use fraud_ml_platform.Shared.{
  ℕ, ◌*◌, ◌/◌, ◌%◌, ◌≡◌, refl, false, none, List, [], ◌∷◌, arith, ◌==◌, if◌then◌else◌, length, All,
  sum, value_error, runtime_error, Result, ok, raise,
}
use fraud_ml_platform.Training.Purging.{IsPurged}
use fraud_ml_platform.Training.Splits.{Event, fold, warn_dropped, purge, split_folds, split}
use fraud_ml_platform.Tuning.Objective.{fold_objective}
use fraud_ml_platform.Tuning.Pruning.{folds_of, IsTrial, fold_objective-IsTrial}
use fraud_ml_platform.Tuning.Resumption.{HasProgress, resume_complete}
use fraud_ml_platform.Tuning.Script.{TuningFiles, write_best}
use fraud_ml_platform.Tuning.Study.{
  complete, pruned, running, RunEnd, finished, n_complete, n_remaining, run_remaining, resume,
}
use fraud_ml_platform.Tuning.Trials.{
  Outcome, in_order, returned, trial_pruned, killed, raised, in_order-IsExtended,
}

-- The third, the sixth and so on give values; the first trial is killed, the second one is pruned,
-- the fourth one raises.
abbrev outcomes : ℕ → Outcome
outcomes i =
    if i % 3 == 2
    then returned
    else if i == 0
    then killed
    else if i == 3
    then raised runtime_error
    else trial_pruned

resume_thrice : resume (in_order outcomes) 1 3 [] ≡ running ∷ pruned ∷ complete ∷ []
unfolding resume run_remaining n_remaining n_complete in_order
resume_thrice = refl

outcomes-HasProgress : HasProgress outcomes 3
outcomes-HasProgress i = ground arith

resume_complete_example : n_complete (resume (in_order outcomes) 2 6 []) ≡ 2
resume_complete_example =
    resume_complete outcomes (in_order outcomes) (in_order-IsExtended outcomes) 3
      outcomes-HasProgress 2 [] (unfold n_complete in omega arith) 6 (omega arith)

-- A study whose trials all end well, and its best parameters.
abbrev tuned : RunEnd × TuningFiles ℕ
tuned =
    Script.main (λ cols. in_order (λ i. returned))
      (λ study. if n_complete study == 0 then raise value_error else ok ([], 5))
      (("card1", false) ∷ []) ("card1" ∷ [])
      (record { study = []; best_params = none; study_trials = none })

tuning_finishes : (tuned.0 ≡ finished) × (n_complete tuned.1.study ≡ 300)
unfolding Script.main write_best run_remaining n_remaining n_complete in_order
tuning_finishes = (refl, refl)

-- Three folds with the scores 10, 20 and 60, the second one dropped, so two reports.
abbrev three_folds : ℕ → ℕ → Result (List (List ℕ × List ℕ))
three_folds n_splits n = ok ((0 ∷ [], 2 ∷ []) ∷ (0 ∷ 1 ∷ [], 1 ∷ []) ∷ (0 ∷ 1 ∷ [], 3 ∷ []) ∷ [])

abbrev four_times : List ℕ
four_times = 0 ∷ 10 ∷ 100000 ∷ 200000 ∷ []

abbrev events_of : List Event
events_of = fold (0 ∷ []) (2 ∷ []) ∷ warn_dropped 1 ∷ fold (0 ∷ 1 ∷ []) (3 ∷ []) ∷ []

split_events : split three_folds 3 1 four_times ≡ ok events_of
unfolding split split_folds purge
split_events = refl

abbrev mean_of : List ℕ → ℕ
mean_of xs = sum xs / length xs

fold_objective-IsTrial_example :
    All (IsPurged four_times (1 * 86400)) events_of
    × IsTrial mean_of
        (λ tr val. 10 * length tr)
        (λ reports. 2 == length reports)
        (folds_of events_of)
        []
        0
        []
        (fold_objective mean_of
          (λ tr val. 10 * length tr)
          (λ reports. 2 == length reports)
          three_folds
          3
          four_times)
fold_objective-IsTrial_example =
    fold_objective-IsTrial mean_of (λ tr val. 10 * length tr) (λ reports. 2 == length reports)
      three_folds 3 four_times events_of split_events
