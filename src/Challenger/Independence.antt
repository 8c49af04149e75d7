-- ===== src/Challenger/Independence.antt =====
-- What the test rows of the challenger's training do not change.
use fraud_ml_platform.Shared.{
  String, ◌≡◌, refl, sym, ap, ◌∙◌, Option, none, some, List, [], ◌∷◌, ◌++◌, FloatOps, Result, ok,
  ◌>>=◌, >>=-eq-ok, ok-inj,
}
use fraud_ml_platform.Challenger.Fitting.{
  main, best_params_of, fit_params_of, objective, twin_threshold, fit_final,
}
use fraud_ml_platform.Challenger.Frames.{
  column, select, n_rows, rows_before, rows_from, challenger_features, val_start_of, Data, divide,
  load_data,
}
use fraud_ml_platform.Challenger.Models.{Lightgbm, Optuna, OnnxTools, Disk}
use fraud_ml_platform.Challenger.Training.{main-finished}
use fraud_ml_platform.Metrics.Kept.{compute_metrics-threshold}
use fraud_ml_platform.Metrics.Scores.{Sklearn}
use fraud_ml_platform.Training.Categoricals.{TableColumn, Encoded, Mappings, encode_categoricals}
use fraud_ml_platform.Tuning.Space.{Params}
use fraud_ml_platform.Tuning.Study.{finished, run_remaining}

-- The same rows to fit on and to validate on.
record IsSameTraining {V : Type 0} (a b : Data V) : Type 0 where
  pub same_X_train : a.X_train ≡ b.X_train
  pub same_y_train : a.y_train ≡ b.y_train
  pub same_X_val : a.X_val ≡ b.X_val
  pub same_y_val : a.y_val ≡ b.y_val

-- `divide` computes the four from the encoded train table.
abbrev training_of :
    {V : Type 0}
    → List String
    → List (String × Encoded V)
    → Result ((List (String × Encoded V) × Encoded V) × (List (String × Encoded V) × Encoded V))
training_of feature_cols train_enc =
    let val_start = val_start_of (n_rows train_enc) in
    let tr = rows_before val_start train_enc in
    let val = rows_from val_start train_enc in
    select feature_cols tr >>= λ X_train. column "isFraud" tr >>= λ y_train.
    select feature_cols val >>= λ X_val.
    column "isFraud" val >>= λ y_val. ok ((X_train, y_train), (X_val, y_val))

divide-training_of :
    {V : Type 0} (feature_cols : List String) (train_enc test_enc : List (String × Encoded V))
    (parts : Data V)
    → divide feature_cols train_enc test_enc ≡ ok parts
    → training_of feature_cols train_enc
      ≡ ok ((parts.X_train, parts.y_train), (parts.X_val, parts.y_val))
unfolding divide
divide-training_of feature_cols train_enc test_enc parts h =
    let val_start = val_start_of (n_rows train_enc) in
    let tr = rows_before val_start train_enc in
    let val = rows_from val_start train_enc in
    let (X_train, a, h1) = >>=-eq-ok (select feature_cols tr) _ h in
    let (y_train, b, h2) = >>=-eq-ok (column "isFraud" tr) _ h1 in
    let (X_val, c, h3) = >>=-eq-ok (select feature_cols val) _ h2 in
    let (y_val, d, h4) = >>=-eq-ok (column "isFraud" val) _ h3 in
    let (X_test, e, h5) = >>=-eq-ok (select feature_cols test_enc) _ h4 in
    let (y_test, f, h6) = >>=-eq-ok (column "isFraud" test_enc) _ h5 in
    rw (a, b, c, d) (ap (λ p. ok ((p.X_train, p.y_train), (p.X_val, p.y_val))) (ok-inj h6))

load_data-training_of :
    {V : Type 0} (train_df test_df : List (String × TableColumn V)) (parts : Data V)
    (cat_mappings : Mappings)
    → load_data train_df test_df ≡ ok (parts, cat_mappings)
    → (train_part : List (String × TableColumn V)) × (select
          (challenger_features train_df ++ "isFraud" ∷ [])
          train_df
        ≡ ok train_part)
      × (training_of (challenger_features train_df) (encode_categoricals train_part none).0
          ≡ ok ((parts.X_train, parts.y_train), (parts.X_val, parts.y_val)))
unfolding load_data
load_data-training_of train_df test_df parts cat_mappings h =
    let cols = challenger_features train_df ++ "isFraud" ∷ [] in
    let (train_part, t, h') = >>=-eq-ok (select cols train_df) _ h in
    let (test_part, s, h'') = >>=-eq-ok (select cols test_df) _ h' in
    let train_enc = (encode_categoricals train_part none).0 in
    let test_enc =
      (encode_categoricals test_part (some (encode_categoricals train_part none).1)).0 in
    let (parts', d, h3) =
      >>=-eq-ok (divide (challenger_features train_df) train_enc test_enc) _ h'' in
    let same : parts' ≡ parts = ap (λ p. p.0) (ok-inj h3) in
    (
      train_part,
      t,
      divide-training_of (challenger_features train_df) train_enc test_enc parts (d ∙ ap ok same),
    )

load_data-IsSameTraining :
    {V : Type 0} (train_df test_a test_b : List (String × TableColumn V)) (a b : Data V)
    (mappings_a mappings_b : Mappings)
    → load_data train_df test_a ≡ ok (a, mappings_a)
    → load_data train_df test_b ≡ ok (b, mappings_b)
    → IsSameTraining a b
load_data-IsSameTraining train_df test_a test_b a b mappings_a mappings_b ha hb =
    let (part_a, sa, ta) = load_data-training_of train_df test_a a mappings_a ha in
    let (part_b, sb, tb) = load_data-training_of train_df test_b b mappings_b hb in
    let same_part : part_a ≡ part_b = ok-inj (sym sa ∙ sb) in
    let both = ok-inj (sym (rw same_part at ta) ∙ tb) in
    record {
      same_X_train = ap (λ p. p.0.0) both;
      same_y_train = ap (λ p. p.0.1) both;
      same_X_val = ap (λ p. p.1.0) both;
      same_y_val = ap (λ p. p.1.1) both;
    }

module _ {F V M : Type 0} (ops : FloatOps F) (sklearn : Sklearn F) (lightgbm : Lightgbm V F M) where
  objective-same :
      (a b : Data V)
      → IsSameTraining a b
      → objective ops sklearn lightgbm a ≡ objective ops sklearn lightgbm b
  unfolding objective
  objective-same a b h = rw (h.same_X_train, h.same_y_train, h.same_X_val, h.same_y_val) refl

  twin_threshold-same :
      (params : Params F) (a b : Data V)
      → IsSameTraining a b
      → twin_threshold ops sklearn lightgbm params a ≡ twin_threshold ops sklearn lightgbm params b
  unfolding twin_threshold
  twin_threshold-same params a b h =
      rw (h.same_X_train, h.same_y_train, h.same_X_val, h.same_y_val) refl

  fit_final-same :
      (params : Params F) (a b : Data V)
      → IsSameTraining a b
      → fit_final ops sklearn lightgbm params a ≡ fit_final ops sklearn lightgbm params b
  unfolding fit_final
  fit_final-same params a b h = rw (h.same_X_train, h.same_y_train, h.same_X_val, h.same_y_val) refl

-- The threshold in the results file.
abbrev pub written_threshold : {F M A T : Type 0} → Disk F M A T → Option F
written_threshold disk = elim disk.results [ some results ↦ some results.0.threshold | none ↦ none ]

-- If trainings from the same files and the same train table finish with two test tables, they leave
-- the same study, the same best parameters, the same model and the same threshold: nothing of the
-- test rows gets into them.
pub main-independent :
    {F V M A T : Type 0} (ops : FloatOps F) (sklearn : Sklearn F) (lightgbm : Lightgbm V F M)
    (optuna : Optuna F) (tools : OnnxTools V F M A T)
    (train_df test_a test_b sample_a sample_b : List (String × TableColumn V))
    (disk disk_a disk_b : Disk F M A T)
    → main ops sklearn lightgbm optuna tools train_df test_a sample_a disk ≡ (finished, disk_a)
    → main ops sklearn lightgbm optuna tools train_df test_b sample_b disk ≡ (finished, disk_b)
    → (disk_a.study ≡ disk_b.study)
      × (disk_a.best_params ≡ disk_b.best_params)
      × (disk_a.final_model ≡ disk_b.final_model)
      × (written_threshold disk_a ≡ written_threshold disk_b)
main-independent ops sklearn lightgbm optuna tools train_df test_a test_b sample_a sample_b disk
      disk_a disk_b ha hb =
    let (a, mappings_a, la, sa, _, ra) =
      main-finished ops sklearn lightgbm optuna tools sample_a train_df test_a disk disk_a ha in
    let (b, mappings_b, lb, sb, _, rb) =
      main-finished ops sklearn lightgbm optuna tools sample_b train_df test_b disk disk_b hb in
    let same = load_data-IsSameTraining train_df test_a test_b a b mappings_a mappings_b la lb in
    let study =
      sa
      ∙ ap (λ o. (run_remaining (optuna.optimize o) 300 disk.study).1)
          (objective-same ops sklearn lightgbm a b same)
      ∙ sym sb in
    let best = ok-inj (sym ra.best ∙ ap optuna.best study ∙ rb.best) in
    let params = ap (λ p. p.0) best in
    let fit_params = ap (λ p. fit_params_of ops (best_params_of ops p)) params in
    let threshold = ok-inj (
      sym ra.from_twin
      ∙ ap (λ p. twin_threshold ops sklearn lightgbm p a) fit_params
      ∙ twin_threshold-same ops sklearn lightgbm _ a b same
      ∙ rb.from_twin) in
    (
      study,
      ra.params_written ∙ ap (λ p. some (best_params_of ops p)) params ∙ sym rb.params_written,
      ra.model_written
          ∙ ap some (
              ap (λ p. fit_final ops sklearn lightgbm p a) fit_params
              ∙ fit_final-same ops sklearn lightgbm _ a b same)
          ∙ sym rb.model_written,
      rw (ra.results_written, rb.results_written)
          (ap some (
            compute_metrics-threshold ops sklearn _ _ ra.threshold ra.metrics ra.measured
            ∙ threshold
            ∙ sym (compute_metrics-threshold ops sklearn _ _ rb.threshold rb.metrics rb.measured))),
    )
