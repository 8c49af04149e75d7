-- ===== src/Pipeline/Steps.antt =====
-- main.py and monitoring/main.py. The two files have the same code over their own lists of steps; a
-- step is a name and a module, and what a module's `main` does is a parameter.
use fraud_ml_platform.Shared.{
  ℕ, suc, String, Bool, true, ◌&&◌, Option, none, some, List, [], ◌∷◌, map, str_eq, ltb,
  if◌then◌else◌, drop, keep_if, any_of, Result, ok, raise,
}

abbrev pub Step : Type 0
Step = String × String

abbrev pub training_steps : List Step
training_steps =
    ("eda", "training.scripts.eda")
    ∷ ("preprocess", "training.scripts.preprocess")
    ∷ ("adversarial_validation", "training.scripts.adversarial_validation")
    ∷ ("baselines", "training.scripts.baselines")
    ∷ ("tune", "training.scripts.tune")
    ∷ ("evaluate", "training.scripts.evaluate")
    ∷ ("export_onnx", "training.scripts.export_onnx")
    ∷ ("load_features_to_redis", "training.scripts.load_features_to_redis")
    ∷ []

abbrev pub monitoring_steps : List Step
monitoring_steps =
    ("apply_migrations", "monitoring.scripts.apply_migrations")
    ∷ ("train_challenger", "monitoring.scripts.train_challenger")
    ∷ ("register_models", "monitoring.scripts.register_models")
    ∷ []

abbrev pub step_names : List Step → List String
step_names = map (λ s. s.0)

pub record Flags : Type 0 where
  pub from_step : Option String
  pub to_step : Option String
  pub only_step : Option String

-- `list.index`. The flags are checked against the names first, so that the name is there.
abbrev pub index : List String → String → ℕ
index [] n = 0
index (x ∷ xs) n = if str_eq x n then 0 else suc (index xs n)

-- argparse's `choices=STEP_NAMES`.
abbrev pub is_choice : List String → Option String → Bool
is_choice names none = true
is_choice names (some n) = any_of (λ x. str_eq x n) names

unfoldable pub select_from : List Step → Option String → List Step
select_from steps none = steps
select_from steps (some n) = drop (index (step_names steps) n) steps

unfoldable pub select_to : List Step → Option String → List Step → List Step
select_to all_steps none steps = steps
select_to all_steps (some n) steps =
    let end = suc (index (step_names all_steps) n) in
    keep_if (λ s. ltb (index (step_names all_steps) s.0) end) steps

unfoldable pub select_steps : List Step → Flags → List Step
unfolding select_from select_to
select_steps steps flags = elim flags.only_step [
  | some n ↦ keep_if (λ s. str_eq s.0 n) steps
  | none ↦ select_to steps flags.to_step (select_from steps flags.from_step)
]

pub data Exit : Type 0 where
  usage_error complete : Exit
  failed_at : String → Exit

-- The modules whose `main` was called, and how the run ended; a failing step ends it.
unfoldable pub run_steps : (String → Result (Unit {0})) → List Step → List String × Exit
run_steps run_module [] = ([], complete)
run_steps run_module ((name, module_path) ∷ rest) = elim (run_module module_path) [
  | ok _ ↦ let (called, exit) = run_steps run_module rest in (module_path ∷ called, exit)
  | raise _ ↦ (module_path ∷ [], failed_at name)
]

unfoldable pub main : List Step → (String → Result (Unit {0})) → Flags → List String × Exit
main steps run_module flags =
    if is_choice (step_names steps) flags.from_step
      && is_choice (step_names steps) flags.to_step
      && is_choice (step_names steps) flags.only_step
    then run_steps run_module (select_steps steps flags)
    else ([], usage_error)

-- The `main` of monitoring/main.py.
abbrev pub monitoring_main : (String → Result (Unit {0})) → Flags → List String × Exit
monitoring_main = main monitoring_steps
