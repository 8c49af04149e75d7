-- ===== src/Challenger/Tests.antt =====
-- A training on a small table with made-up libraries, and the properties at it. Floats are integers
-- that count hundredths.
use mathlib.Core.Option
use fraud_ml_platform.Challenger.Fitting
use fraud_ml_platform.Challenger.Recompute
use fraud_ml_platform.Registry.Register
use fraud_ml_platform.Shared.{
  ℕ, ◌*◌, String, ◌≡◌, refl, ◌≢◌, inr, true, false, none, some, List, [], ◌∷◌, ◌++◌, arith,
  str_eq_iff, ◌==◌, if◌then◌else◌, length, replicate, sum, FloatOps, ℤ, pos, value_error,
  runtime_error, Result, ok, raise,
}
use fraud_ml_platform.Challenger.Agreement.{recompute-main}
use fraud_ml_platform.Challenger.Exporting.{converted, measure, report, export_onnx}
use fraud_ml_platform.Challenger.Fitting.{
  objective, twin_threshold, fit_final, assess, refit, search,
}
use fraud_ml_platform.Challenger.Frames.{
  column, select, n_rows, challenger_features, divide, load_data,
}
use fraud_ml_platform.Challenger.Graph.{
  OnnxNode, OnnxModel, remove_opset, remove_opsets, cut_down, strip_model,
}
use fraud_ml_platform.Challenger.Independence.{written_threshold, main-independent}
use fraud_ml_platform.Challenger.Leaks.{features-leak}
use fraud_ml_platform.Challenger.Models.{Lightgbm, Optuna, OnnxTools, Disk}
use fraud_ml_platform.Challenger.Parity.{export_onnx-registered}
use fraud_ml_platform.Challenger.Stripping.{IsStripped, strip_model-IsStripped}
use fraud_ml_platform.Metrics.Scores.{predictions, compute_metrics, Sklearn}
use fraud_ml_platform.Metrics.Thresholds.{
  Curve, f1_scores, argmax_from, argmax, max_of, masked, find_optimal_threshold,
  recall_at_precision, precision_at_recall,
}
use fraud_ml_platform.Registry.Table.{champion, challenger, retired, Models, find_model, role_of}
use fraud_ml_platform.Samples.{ints}
use fraud_ml_platform.Training.Categoricals.{
  get, TableColumn, categorical, plain, Encoded, codes_of, unchanged, last_place, code, encode_new,
  encode_with, encode_categoricals, HasDistinctColumns,
}
use fraud_ml_platform.Training.Selection.{contains, champion_features}
use fraud_ml_platform.Tuning.Space.{integer, assign}
use fraud_ml_platform.Tuning.Study.{
  complete, RunEnd, finished, stopped, n_complete, n_remaining, run_remaining,
}

abbrev hundredths : FloatOps ℤ
hundredths = record ints {
  fmul = λ a b. ints.fdiv (ints.fmul a b) (pos 100);
  fdiv = λ a b. ints.fdiv (ints.fmul a (pos 100)) b;
  of_nat = λ n. pos (n * 100);
}

abbrev curve : List ℕ → List ℤ → Curve ℤ
curve y_true y_prob = record {
  precision = pos 40 ∷ pos 80 ∷ pos 100 ∷ [];
  recall = pos 100 ∷ pos 90 ∷ pos 0 ∷ [];
  thresholds = pos 30 ∷ pos 70 ∷ [];
}

abbrev scores : Sklearn ℤ
scores = record {
  average_precision_score = λ y p. pos (length p);
  roc_auc_score = λ y p. pos (length y);
  f1_score = λ y z. pos (sum z);
  brier_score_loss = λ y p. pos 0;
  precision_recall_curve = curve;
}

abbrev Part : Type 0
Part = List (String × Encoded ℕ)

abbrev append_column : Encoded ℕ → Encoded ℕ → Encoded ℕ
append_column (codes_of a) (codes_of b) = codes_of (a ++ b)
append_column (unchanged a) (unchanged b) = unchanged (a ++ b)
append_column a _ = a

abbrev append_rows : Part → Part → Part
append_rows ((col, a) ∷ df) ((_, b) ∷ df') = (col, append_column a b) ∷ append_rows df df'
append_rows df _ = df

-- A model is the number of rows that it is fitted to, and gives each row 0.80.
abbrev trees : Lightgbm ℕ ℤ ℕ
trees = record {
  fit = λ params X y. n_rows X;
  fit_early = λ params X y X_val y_val. n_rows X;
  predict_proba = λ m X. replicate (n_rows X) (pos 80);
  booster_predict = λ m X. replicate (n_rows X) (pos 80);
  concat = append_rows;
  concat_column = append_column;
  labels = λ y. elim y [ unchanged ys ↦ ys | codes_of _ ↦ [] ];
}

abbrev study_of : Optuna ℤ
study_of = record {
  optimize = λ objective n study. (finished, study ++ replicate n complete);
  best = λ study.
      if n_complete study == 0
      then raise value_error
      else ok (("num_leaves", integer (pos 31)) ∷ [], pos 59);
}

abbrev tree_node : OnnxNode ℕ
tree_node = record {
  op_type = "TreeEnsembleClassifier";
  output = "variable" ∷ "scores" ∷ [];
  attribute =
      record { name = "nodes_hitrates"; content = 1 }
      ∷ record { name = "nodes_values"; content = 2 }
      ∷ [];
}

abbrev raw_model : OnnxModel ℕ ℕ
raw_model = record {
  nodes = record { op_type = "Cast"; output = []; attribute = [] } ∷ tree_node ∷ [];
  outputs = record { name = "variable"; value_type = 0 } ∷ [];
  opset_import =
      record { domain = ""; version = 9 } ∷ record { domain = "ai.onnx.ml"; version = 1 } ∷ [];
}

-- A session that gives each row this probability.
abbrev onnx_with : ℕ → OnnxTools ℕ ℤ ℕ ℕ ℕ
onnx_with p = record {
  convert_lightgbm = λ model n. ok raw_model;
  sha256 = λ m. "h1";
  run_session = λ m X. ok (replicate (n_rows X) (pos p));
  int64_vector = 1;
  float_pairs = 2;
}

abbrev train_table : List (String × TableColumn ℕ)
train_table =
    ("TransactionID", plain (1 ∷ 2 ∷ 3 ∷ 4 ∷ []))
    ∷ ("isFraud", plain (0 ∷ 1 ∷ 0 ∷ 1 ∷ []))
    ∷ (
      "card4",
      categorical ("mastercard" ∷ "visa" ∷ [])
          (some "visa" ∷ none ∷ some "mastercard" ∷ some "visa" ∷ []),
    )
    ∷ []

abbrev test_table : List (String × TableColumn ℕ)
test_table =
    ("TransactionID", plain (5 ∷ 6 ∷ []))
    ∷ ("isFraud", plain (1 ∷ 0 ∷ []))
    ∷ ("card4", categorical ("visa" ∷ []) (some "visa" ∷ some "visa" ∷ []))
    ∷ []

abbrev empty_disk : Disk ℤ ℕ ℕ ℕ
empty_disk = record {
  study = [];
  category_mappings = none;
  best_params = none;
  final_model = none;
  results = none;
  onnx = none;
  parity_report = none;
  feature_order = none;
}

-- A training with a test table, and a session of the exported model that gives this probability.
abbrev train_with : ℕ → List (String × TableColumn ℕ) → RunEnd × Disk ℤ ℕ ℕ ℕ
train_with p test_df =
    Fitting.main hundredths scores trees study_of (onnx_with p) train_table test_df test_df
      empty_disk

abbrev one_row : List (String × TableColumn ℕ)
one_row =
    ("TransactionID", plain (7 ∷ []))
    ∷ ("isFraud", plain (1 ∷ []))
    ∷ ("card4", categorical ("jcb" ∷ []) (some "jcb" ∷ []))
    ∷ []

abbrev trained : Disk ℤ ℕ ℕ ℕ
trained = (train_with 80 test_table).1

abbrev trained_again : Disk ℤ ℕ ℕ ℕ
trained_again = (train_with 80 one_row).1

training_finishes : train_with 80 test_table ≡ (finished, trained)
unfolding Fitting.main search refit assess export_onnx report converted strip_model measure
    fit_final twin_threshold objective find_optimal_threshold argmax argmax_from f1_scores max_of
    masked recall_at_precision precision_at_recall compute_metrics predictions load_data divide
    select column challenger_features encode_categoricals encode_new encode_with code last_place get
    assign run_remaining n_remaining n_complete remove_opset remove_opsets
training_finishes = refl

training_again_finishes : train_with 80 one_row ≡ (finished, trained_again)
unfolding Fitting.main search refit assess export_onnx report converted strip_model measure
    fit_final twin_threshold objective find_optimal_threshold argmax argmax_from f1_scores max_of
    masked recall_at_precision precision_at_recall compute_metrics predictions load_data divide
    select column challenger_features encode_categoricals encode_new encode_with code last_place get
    assign run_remaining n_remaining n_complete remove_opset remove_opsets
training_again_finishes = refl

training_fails : (train_with 70 test_table).0 ≡ stopped runtime_error
unfolding Fitting.main search refit assess export_onnx report converted strip_model measure
    fit_final twin_threshold objective find_optimal_threshold argmax argmax_from f1_scores max_of
    masked recall_at_precision precision_at_recall compute_metrics predictions load_data divide
    select column challenger_features encode_categoricals encode_new encode_with code last_place get
    assign run_remaining n_remaining n_complete remove_opset remove_opsets
training_fails = refl

main-independent_example :
    (trained.study ≡ trained_again.study)
    × (trained.best_params ≡ trained_again.best_params)
    × (trained.final_model ≡ trained_again.final_model)
    × (written_threshold trained ≡ written_threshold trained_again)
main-independent_example =
    main-independent hundredths scores trees study_of (onnx_with 80) train_table test_table one_row
      test_table one_row empty_disk trained trained_again training_finishes training_again_finishes

train_table-HasDistinctColumns : HasDistinctColumns train_table
train_table-HasDistinctColumns = (
  (
    λ e. ground (arith, e, str_eq_iff "isFraud" "TransactionID"),
    (λ e. ground (arith, e, str_eq_iff "card4" "TransactionID"), tt),
  ),
  ((λ e. ground (arith, e, str_eq_iff "card4" "isFraud"), tt), (tt, tt)),
)

recompute-main_example :
    Recompute.main hundredths scores trees study_of train_table test_table trained
    ≡ (finished, trained)
recompute-main_example =
    recompute-main hundredths scores trees study_of (onnx_with 80) train_table test_table test_table
      empty_disk trained (λ model df. refl) train_table-HasDistinctColumns refl training_finishes

strip_model-IsStripped_example :
    (m' : OnnxModel ℕ ℕ) × (strip_model 1 2 raw_model ≡ ok m') × IsStripped 1 2 m' tree_node
strip_model-IsStripped_example =
    strip_model-IsStripped 1 2 raw_model tree_node refl (omega arith) (omega arith)

-- The export of the model, alone, with the files that it leaves.
abbrev export_with : ℕ → RunEnd × Disk ℤ ℕ ℕ ℕ
export_with p = export_onnx hundredths trees (onnx_with p) 3 ("card4" ∷ []) [] test_table empty_disk

abbrev exported : Disk ℤ ℕ ℕ ℕ
exported = (export_with 80).1

-- The model that is written.
abbrev stripped : OnnxModel ℕ ℕ
stripped = cut_down 1 2 ("label" ∷ "probabilities" ∷ []) tree_node raw_model

conversion : converted hundredths trees (onnx_with 70) 3 ("card4" ∷ []) ≡ ok stripped
unfolding converted strip_model
conversion = refl

difference :
    measure hundredths trees (onnx_with 70) 3 stripped ("card4" ∷ []) [] test_table ≡ ok (pos 10)
unfolding measure max_of select column encode_categoricals encode_with code last_place get
difference = refl

abbrev registered : Result (String × String) × Models
registered =
    Register.main (some "c1") (Option.map (onnx_with 70).sha256 (export_with 70).1.onnx) true 7 []

not_retired : (version : String) → role_of version [] ≢ some retired
unfolding find_model
not_retired version e = cc e

export_onnx-registered_example :
    ((export_with 70).0 ≡ stopped runtime_error)
    × ((export_with 70).1.onnx ≡ some stripped)
    × (Option.map (λ r. r.max_diff) (export_with 70).1.parity_report ≡ some (pos 10))
    × (registered.0 ≡ ok ("c1", "h1"))
    × (role_of "h1" registered.1 ≡ some challenger)
    × (role_of "c1" registered.1 ≡ some champion)
export_onnx-registered_example =
    export_onnx-registered hundredths trees (onnx_with 70) 3 ("card4" ∷ []) [] test_table empty_disk
      stripped (pos 10) conversion difference refl "c1" 7 []
      (λ e. ground (arith, e, str_eq_iff "c1" "h1")) (not_retired "c1") (not_retired "h1")

features-leak_example :
    (contains "day" (challenger_features (("day", plain (1 ∷ [])) ∷ train_table)) ≡ true)
    × (contains "day" (champion_features (("day", false) ∷ []) ("day" ∷ [])) ≡ false)
features-leak_example =
    features-leak (("day", plain (1 ∷ [])) ∷ train_table) (("day", false) ∷ []) ("day" ∷ []) "day"
      (inr refl) refl
