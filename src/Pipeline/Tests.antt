-- ===== src/Pipeline/Tests.antt =====
-- Concrete runs of the pipelines, and the theorems at them.
-- A run in which one module fails.
use fraud_ml_platform.Shared.{
  String, ◌≡◌, refl, none, some, List, [], ◌∷◌, str_eq, if◌then◌else◌, runtime_error, Result, ok,
  raise,
}
use fraud_ml_platform.Pipeline.Selection.{
  HasDistinctNames, distinct_names-HasDistinctNames, select_steps-range,
}
use fraud_ml_platform.Pipeline.Steps.{
  main, Step, training_steps, Flags, select_from, select_to, select_steps, usage_error, failed_at,
  run_steps, monitoring_main,
}

abbrev failing_run : String → Result (Unit {0})
failing_run m = if str_eq m "training.scripts.tune" then raise runtime_error else ok tt

abbrev resumed : Flags
resumed = record { from_step = some "tune"; to_step = some "evaluate"; only_step = none }

abbrev resumed_steps : List Step
resumed_steps = ("tune", "training.scripts.tune") ∷ ("evaluate", "training.scripts.evaluate") ∷ []

training_steps-HasDistinctNames : HasDistinctNames training_steps
training_steps-HasDistinctNames = distinct_names-HasDistinctNames training_steps refl

select_steps-range_example : select_steps training_steps resumed ≡ resumed_steps
select_steps-range_example =
    select_steps-range training_steps resumed training_steps-HasDistinctNames

stops_at_tune :
    main training_steps failing_run
      (record { from_step = some "baselines"; to_step = none; only_step = none })
    ≡ ("training.scripts.baselines" ∷ "training.scripts.tune" ∷ [], failed_at "tune")
unfolding main select_steps select_from select_to run_steps
stops_at_tune = refl

unknown_step :
    monitoring_main failing_run
      (record { from_step = none; to_step = none; only_step = some "deploy" })
    ≡ ([], usage_error)
unfolding main
unknown_step = refl
