-- ===== src/Challenger/Training.antt =====
-- What a finished run of train_challenger.py has written.
use fraud_ml_platform.Shared.{
  String, ◌≡◌, refl, ap, ◌∙◌, subst, inl, inr, some, List, FloatOps, ok, Result-cases,
}
use fraud_ml_platform.Challenger.Exporting.{converted, measure, report, export_onnx}
use fraud_ml_platform.Challenger.Fitting.{
  main, best_params_of, fit_params_of, objective, twin_threshold, fit_final, load_cat_mappings,
  assess, refit, search,
}
use fraud_ml_platform.Challenger.Frames.{Data, load_data}
use fraud_ml_platform.Challenger.Models.{Lightgbm, Optuna, OnnxTools, Disk}
use fraud_ml_platform.Metrics.Scores.{compute_metrics, Sklearn, Metrics}
use fraud_ml_platform.Training.Categoricals.{TableColumn, Mappings}
use fraud_ml_platform.Tuning.Space.{Params}
use fraud_ml_platform.Tuning.Study.{
  RunEnd, finished, interrupted, stopped, run_remaining, stopped≢finished, interrupted≢finished,
}

module _ {F V M A T : Type 0} (ops : FloatOps F) (sklearn : Sklearn F) (lightgbm : Lightgbm V F M)
    (optuna : Optuna F) (tools : OnnxTools V F M A T)
    (sample_raw : List (String × TableColumn V)) where
  -- The files that the export does not touch.
  abbrev IsKept : Disk F M A T → Disk F M A T → Type 0
  IsKept disk disk' =
      (disk'.study ≡ disk.study)
      × (disk'.category_mappings ≡ disk.category_mappings)
      × (disk'.best_params ≡ disk.best_params)
      × (disk'.final_model ≡ disk.final_model)
      × (disk'.results ≡ disk.results)

  export_onnx-IsKept :
      (model : M) (feature_cols : List String) (cat_mappings : Mappings) (disk : Disk F M A T)
      → IsKept disk
          (export_onnx ops lightgbm tools model feature_cols cat_mappings sample_raw disk).1
  unfolding export_onnx report
  export_onnx-IsKept model feature_cols cat_mappings disk =
      elim (Result-cases (converted ops lightgbm tools model feature_cols)) [
        | inr (e, h) ↦ rw (export_onnx, h) (refl, refl, refl, refl, refl)
        | inl (m, h) ↦
            elim (Result-cases
              (measure ops lightgbm tools model m feature_cols cat_mappings sample_raw)) [
                | inr (e, h') ↦ rw (export_onnx, h, h') (refl, refl, refl, refl, refl)
                | inl (max_diff, h') ↦ rw (export_onnx, h, h') (refl, refl, refl, refl, refl)
              ]
      ]

  -- The files from the best parameters on, for the data and the study.
  pub record IsRefitted (parts : Data V) (disk' : Disk F M A T) : Type 0 where
    pub params : Params F
    pub best_value : F
    pub threshold : F
    pub metrics : Metrics F
    pub best : optuna.best disk'.study ≡ ok (params, best_value)
    pub params_written : disk'.best_params ≡ some (best_params_of ops params)
    pub from_twin :
        twin_threshold ops sklearn lightgbm (fit_params_of ops (best_params_of ops params)) parts
        ≡ ok threshold
    pub model_written :
        disk'.final_model
        ≡ some
            (fit_final ops sklearn lightgbm (fit_params_of ops (best_params_of ops params)) parts)
    pub measured :
        compute_metrics ops sklearn
          (lightgbm.labels parts.y_test)
          (lightgbm.predict_proba
            (fit_final ops sklearn lightgbm (fit_params_of ops (best_params_of ops params)) parts)
            parts.X_test)
          threshold
        ≡ ok metrics
    pub results_written : disk'.results ≡ some (metrics, best_value)

  -- The end of `assess`: the metrics are there, and the rest is as it was.
  assess-finished :
      (parts : Data V) (best_value threshold : F) (model : M) (disk disk' : Disk F M A T)
      → assess ops sklearn lightgbm optuna tools sample_raw parts best_value threshold model disk
        ≡ (finished, disk')
      → (metrics : Metrics F) × (compute_metrics ops sklearn
            (lightgbm.labels parts.y_test)
            (lightgbm.predict_proba model parts.X_test)
            threshold
          ≡ ok metrics)
        × IsKept (record disk { results = some (metrics, best_value) }) disk'
  unfolding assess
  assess-finished parts best_value threshold model disk disk' h =
      elim (Result-cases (
        compute_metrics ops sklearn (lightgbm.labels parts.y_test)
          (lightgbm.predict_proba model parts.X_test) threshold)) [
            | inr (e, r) ↦ absurd (stopped≢finished (ap (λ p. p.0) (rw (assess, r) at h)))
            | inl (metrics, r) ↦ (
              metrics,
              r,
              subst (IsKept (record disk { results = some (metrics, best_value) }))
                  (ap (λ p. p.1) (rw (assess, r) at h))
                  (export_onnx-IsKept model parts.feature_cols
                    (load_cat_mappings ops sklearn lightgbm disk)
                    (record disk { results = some (metrics, best_value) })),
            )
          ]

  refit-finished :
      (parts : Data V) (disk disk' : Disk F M A T)
      → refit ops sklearn lightgbm optuna tools sample_raw parts disk ≡ (finished, disk')
      → (disk'.study ≡ disk.study)
        × (disk'.category_mappings ≡ disk.category_mappings)
        × IsRefitted parts disk'
  unfolding refit
  refit-finished parts disk disk' h = elim (Result-cases (optuna.best disk.study)) [
    | inr (e, r) ↦ absurd (stopped≢finished (ap (λ p. p.0) (rw (refit, r) at h)))
    | inl ((params, best_value), r) ↦
        let best_params = best_params_of ops params in
        let fit_params = fit_params_of ops best_params in
        elim (Result-cases (twin_threshold ops sklearn lightgbm fit_params parts)) [
          | inr (e, t) ↦ absurd (stopped≢finished (ap (λ p. p.0) (rw (refit, r, t) at h)))
          | inl (threshold, t) ↦
              let model = fit_final ops sklearn lightgbm fit_params parts in
              let before : Disk F M A T = record disk {
                best_params = some best_params;
                final_model = some model;
              } in
              let (metrics, m, kept) =
                assess-finished parts best_value threshold model before disk'
                  (rw (refit, r, t) at h) in
              let (study, mappings, written, saved, results) = kept in
              (
                study,
                mappings,
                record {
                  params = params;
                  best_value = best_value;
                  threshold = threshold;
                  metrics = metrics;
                  best = ap optuna.best study ∙ r;
                  params_written = written;
                  from_twin = t;
                  model_written = saved;
                  measured = m;
                  results_written = results;
                },
              )
        ]
  ]

  search-finished :
      (parts : Data V) (disk disk' : Disk F M A T)
      → search ops sklearn lightgbm optuna tools sample_raw parts disk ≡ (finished, disk')
      → (disk'.study
          ≡ (run_remaining
              (optuna.optimize (objective ops sklearn lightgbm parts))
              300
              disk.study).1)
        × (disk'.category_mappings ≡ disk.category_mappings)
        × IsRefitted parts disk'
  unfolding search
  search-finished parts disk disk' h =
      ended
        (run_remaining (optuna.optimize (objective ops sklearn lightgbm parts)) 300 disk.study).0 h
    where
      ended :
          (end : RunEnd)
          → let study =
              (run_remaining
                (optuna.optimize (objective ops sklearn lightgbm parts))
                300
                disk.study).1 in
            (elim end as (λ _. RunEnd × Disk F M A T) [
              | finished ↦
                  refit ops sklearn lightgbm optuna tools sample_raw parts
                    (record disk { study = study })
              | interrupted ↦ (interrupted, record disk { study = study })
              | stopped e ↦ (stopped e, record disk { study = study })
            ])
              ≡ (finished, disk')
            → (disk'.study
                ≡ (run_remaining
                    (optuna.optimize (objective ops sklearn lightgbm parts))
                    300
                    disk.study).1)
              × (disk'.category_mappings ≡ disk.category_mappings)
              × IsRefitted parts disk'
      ended finished k = refit-finished parts _ disk' k
      ended interrupted k = absurd (interrupted≢finished (ap (λ p. p.0) k))
      ended (stopped e) k = absurd (stopped≢finished (ap (λ p. p.0) k))

  pub main-finished :
      (train_df test_df : List (String × TableColumn V)) (disk disk' : Disk F M A T)
      → main ops sklearn lightgbm optuna tools train_df test_df sample_raw disk ≡ (finished, disk')
      → (parts : Data V) × (cat_mappings : Mappings) × (load_data train_df test_df
          ≡ ok (parts, cat_mappings))
        × (disk'.study
            ≡ (run_remaining
                (optuna.optimize (objective ops sklearn lightgbm parts))
                300
                disk.study).1)
        × (disk'.category_mappings ≡ some cat_mappings)
        × IsRefitted parts disk'
  unfolding main
  main-finished train_df test_df disk disk' h = elim (Result-cases (load_data train_df test_df)) [
    | inr (e, l) ↦ absurd (stopped≢finished (ap (λ p. p.0) (rw (main, l) at h)))
    | inl ((parts, cat_mappings), l) ↦
        let (study, mappings, refitted) =
          search-finished parts (record disk { category_mappings = some cat_mappings }) disk'
            (rw (main, l) at h) in
        (parts, cat_mappings, l, study, mappings, refitted)
  ]
