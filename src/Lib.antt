-- ===== src/Lib.antt =====
-- A model of the Python code of the fraud detection platform: the monitoring jobs, which watch two
-- models in production and move them between roles, and the parts of training that decide which rows
-- and which numbers a model sees.
--
-- The serving service writes predictions and shadow comparisons into Postgres. Over these tables
-- run the jobs of monitoring/: the label simulator adds ground truth to predictions, the drift
-- detector compares two windows of predictions, the shadow comparator summarizes comparisons, and
-- the canary job evaluates champion and challenger on labelled predictions and promotes the
-- challenger or rolls it back, in the table models, which register_models.py fills, and at the
-- router. The table's rows come in by apply_migrations.py and the pipelines main.py and
-- monitoring/main.py. The scripts of training/ and train_challenger.py hand files to one another:
-- the train and test rows, the list of features, the study, the parameters, the models, the
-- mappings of categories and the ONNX files, of which register_models.py takes up the last;
-- load_features_to_redis.py gives the serving service the features of the test rows. A theorem
-- about a job is about its state, which is passed from operation to operation, and holds for every
-- answer of the outside.
--
-- Files:
--   Shared            names for all modules: lists, results of code that raises, texts, integers,
--                     the operations of floats, and inserts with ON CONFLICT DO NOTHING.
--   Config            Settings: monitoring/common/config.py.
--   Database          the rows of predictions and labels, and `now - timedelta(..)`.
--   Samples           integers in place of floats, for the tests.
--   Registry          Table: the table models. Register: monitoring/scripts/register_models.py,
--                     `upsert_model` and `main`. Main, Guarantees, Roles, Champions: its theorems.
--   Canary            Types, Query, Streak, Evaluator: monitoring/canary/evaluator.py,
--                     `evaluate_canary` (the SQL is `fetch_rows` and `recent_outcomes`, the rules are
--                     `guardrail` and `judge`), `_compute_metrics`, and
--                     `_count_consecutive_improvements`. Rollout:
--                     monitoring/scripts/run_canary_evaluator.py, `apply_decision`, `_write_decision`,
--                     and one round of `main` as `iterate`. The other files are theorems.
--   Labels            Simulator: monitoring/labels/simulator.py. Joiner:
--                     monitoring/scripts/run_label_joiner.py.
--   Migrations        Apply: monitoring/scripts/apply_migrations.py.
--   Pipeline          Steps: main.py and monitoring/main.py.
--   Drift             Buckets and Detectors: monitoring/drift/js.py, psi.py and ks.py. Runner:
--                     monitoring/drift/runner.py and monitoring/scripts/run_drift_detector.py.
--   Shadow            Comparator: monitoring/shadow/comparator.py and
--                     monitoring/scripts/run_shadow_comparator.py.
--   Training          Splits: training/src/splits.py. Features, Columns, Encoder:
--                     training/src/features.py. Categoricals: monitoring/common/encoding.py.
--                     Preprocess and Prepare: training/scripts/preprocess.py, from its object
--                     columns on. Loader: the batches of
--                     training/scripts/load_features_to_redis.py. Export and Exporter:
--                     training/src/export.py and training/scripts/export_onnx.py. Selection: the
--                     columns of the models. Adversarial: training/src/adversarial.py and
--                     training/scripts/adversarial_validation.py.
--   Loading           Redis: training/scripts/load_features_to_redis.py, `main` with its store.
--   Tuning            Space, Objective: training/src/tune.py, `_objective`. Study: how a study is
--                     resumed, in training/scripts/tune.py and train_challenger.py. Script:
--                     training/scripts/tune.py, `main`. Trials: what optuna's `optimize` is taken to do.
--   Metrics           Thresholds, Scores: training/src/evaluate.py.
--   Challenger        Frames, Models, Fitting: monitoring/scripts/train_challenger.py, `load_data`,
--                     `objective` and `main`. Graph, Exporting: its `_export_onnx`. Recompute:
--                     monitoring/scripts/recompute_challenger_metrics.py.
--   Baselines         Models, Runs: training/src/baselines.py and training/scripts/baselines.py.
--   Champion          Evaluate: training/scripts/evaluate.py and training/src/train.py.
--
-- How the code is read:
--   - Floats are a type F with the operations of `FloatOps`, without any law; a theorem that needs a
--     law has it as a hypothesis. What scikit-learn, numpy, scipy, md5, UUID and isoformat compute are
--     parameters, with a `Result` where they raise on data that the code can give them.
--   - Times are microseconds since the smallest datetime; a time before it raises, and times stay
--     below the largest one. Counts and limits of the configuration are not negative.
--   - A table is a list of rows in the order in which a scan gives them; the theorems hold for any
--     order. A query succeeds; the writes of the canary job may fail. A transaction that fails leaves
--     the table as it was.
--   - A file that a script writes is a field of its state, with the value that is written: JSON, parquet
--     and the format of a model give back what they were given. In Loading, where the text of a value is
--     what is stored, JSON is a parameter. Keys in Redis do not expire while the script runs.
--   - A fit is a function of its parameters and rows. optuna's `optimize` is a parameter; a theorem on a
--     study has as a hypothesis that a run adds at most as many trials as it is to, that many if it
--     finishes, and one at least, and that those are complete whose objective ends with a value.
--   - Texts are compared as they are; lower case and white space are those of ASCII.
--   - Loops are recursion on the list that they run over. The endless loops of the jobs run over a list
--     of rounds, of any length: no fuel is needed, and what holds after every list of rounds holds at
--     every time of the loop.
--
--   - The runs of a study that is resumed are counted, and the theorem on them says how many are enough.
--
-- Not modelled: the services in Go, which are other programs, the fitting of models, plots and SHAP
-- values, the exploration of the data, the format of files, logging, and sleeping between rounds.
pub mod Shared
pub mod Config
pub mod Database
pub mod Samples
pub mod Registry
pub mod Canary
pub mod Labels
pub mod Migrations
pub mod Pipeline
pub mod Drift
pub mod Shadow
pub mod Training
pub mod Loading
pub mod Tuning
pub mod Metrics
pub mod Challenger
pub mod Baselines
pub mod Champion
