-- ===== src/Challenger/Parity.antt =====
-- The parity check of the challenger's export, and what the registration makes of it.
use mathlib.Core.Option
use fraud_ml_platform.Registry.Register
use fraud_ml_platform.Shared.{
  String, ◌≡◌, refl, ◌≢◌, ◌⊎◌, true, false, some, List, FloatOps, runtime_error, import_error, ok,
  raise,
}
use fraud_ml_platform.Challenger.Exporting.{
  tolerance, with_onnx, converted, measure, report, export_onnx,
}
use fraud_ml_platform.Challenger.Graph.{OnnxModel}
use fraud_ml_platform.Challenger.Models.{Lightgbm, OnnxTools, ParityReport, Disk}
use fraud_ml_platform.Database.{Time}
use fraud_ml_platform.Metrics.Thresholds.{is_nan}
use fraud_ml_platform.Registry.Guarantees.{main-succeeds}
use fraud_ml_platform.Registry.Table.{champion, challenger, retired, Models, role_of}
use fraud_ml_platform.Training.Categoricals.{TableColumn, Mappings}
use fraud_ml_platform.Tuning.Study.{stopped}

-- A float that is a number is below another one unless that one is not above it.
abbrev pub IsTotal : {F : Type 0} → FloatOps F → Type 0
IsTotal {F = F} ops = (x y : F) → is_nan ops x ≡ false → ops.fle y x ≡ false → ops.flt x y ≡ true

-- The files of an export that has ended without an exception: the ONNX model with its digest and the
-- order of its features, the parity check passed unless the difference is not a number.
pub record IsReported {V F M A T : Type 0} (ops : FloatOps F) (tools : OnnxTools V F M A T)
    (feature_cols : List String) (disk' : Disk F M A T) : Type 0 where
  pub model : OnnxModel A T
  pub parity : ParityReport F
  pub model_written : disk'.onnx ≡ some model
  pub report_written : disk'.parity_report ≡ some parity
  pub order_written : disk'.feature_order ≡ some feature_cols
  pub digest : parity.onnx_sha256 ≡ tools.sha256 model
  pub verdict : (parity.passed ≡ true) ⊎ (is_nan ops parity.max_diff ≡ true)

module _ {V F M A T : Type 0} (ops : FloatOps F) (lightgbm : Lightgbm V F M)
    (tools : OnnxTools V F M A T) where
  -- A package was missing: in the conversion, and nothing is written, or in the measurement, and only
  -- the model is.
  abbrev pub IsSkipped :
      M
      → List String
      → Mappings
      → List (String × TableColumn V)
      → Disk F M A T
      → Disk F M A T
      → Type 0
  IsSkipped model feature_cols cat_mappings sample_raw disk disk' =
      ((converted ops lightgbm tools model feature_cols ≡ raise import_error) × (disk' ≡ disk))
      ⊎ ((m : OnnxModel A T) × (converted ops lightgbm tools model feature_cols ≡ ok m)
          × (measure ops lightgbm tools model m feature_cols cat_mappings sample_raw
              ≡ raise import_error)
          × (disk' ≡ with_onnx ops lightgbm tools m disk))

  -- If an export converts and measures its model and the difference is 0.01 or more, it raises a
  -- RuntimeError; but the model file is there, beside a report with this difference, and a registration
  -- with it, with another champion, succeeds if neither version is retired in the table, and makes it
  -- the challenger and the other one the champion.
  pub export_onnx-registered :
      (model : M) (feature_cols : List String) (cat_mappings : Mappings)
      (sample_raw : List (String × TableColumn V)) (disk : Disk F M A T) (m : OnnxModel A T)
      (max_diff : F)
      → converted ops lightgbm tools model feature_cols ≡ ok m
      → measure ops lightgbm tools model m feature_cols cat_mappings sample_raw ≡ ok max_diff
      → ops.fle (tolerance ops) max_diff ≡ true
      → (champ_sha : String) (now : Time) (table : Models) → champ_sha ≢ tools.sha256 m
      → role_of champ_sha table ≢ some retired
      → role_of (tools.sha256 m) table ≢ some retired
      → let run = export_onnx ops lightgbm tools model feature_cols cat_mappings sample_raw disk in
        let registration =
          Register.main (some champ_sha) (Option.map tools.sha256 run.1.onnx) true now table in
        (run.0 ≡ stopped runtime_error)
        × (run.1.onnx ≡ some m)
        × (Option.map (λ r. r.max_diff) run.1.parity_report ≡ some max_diff)
        × (registration.0 ≡ ok (champ_sha, tools.sha256 m))
        × (role_of (tools.sha256 m) registration.1 ≡ some challenger)
        × (role_of champ_sha registration.1 ≡ some champion)
  unfolding export_onnx report
  export_onnx-registered model feature_cols cat_mappings sample_raw disk m max_diff c d above
        champ_sha now table different fresh fresh' =
      let (t', registered, champ, chall) =
        main-succeeds champ_sha (tools.sha256 m) now table different fresh fresh' in
      rw (export_onnx, c, d, report, above)
        (refl, refl, refl, rw registered refl, rw registered chall, rw registered champ)
