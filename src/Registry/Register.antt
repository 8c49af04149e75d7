-- ===== src/Registry/Register.antt =====
-- monitoring/scripts/register_models.py: `upsert_model` and `main`. A version is the digest of its
-- file, so the digests are the arguments; the transaction makes a failure leave the table alone.
use fraud_ml_platform.Shared.{
  String, Bool, true, false, not, ◌&&◌, Option, none, some, [], ◌∷◌, ◌++◌, if◌then◌else◌,
  runtime_error, file_not_found, Result, ok, raise, ◌>>=◌,
}
use fraud_ml_platform.Database.{Time}
use fraud_ml_platform.Registry.Table.{
  Role, champion, challenger, retired, ModelRow, Models, same_role, has_role, has_version,
  find_model, update_models, retire,
}

abbrev pub champion_path : String
champion_path = "/app/artifacts/final_model.onnx"

abbrev pub challenger_path : String
challenger_path = "/app/artifacts/challenger/lgbm_final_model.onnx"

abbrev pub champion_notes : String
champion_notes = "XGBoost v1, phase 1 baseline"

abbrev pub challenger_notes : String
challenger_notes = "LightGBM v1, 200 Optuna trials"

abbrev pub new_row : String → String → String → Role → String → ModelRow
new_row version path sha role notes = record {
  model_version = version;
  model_path = path;
  onnx_sha256 = sha;
  role = role;
  notes = notes;
  promoted_at = none;
  retired_at = none;
}

-- SET role=%s, model_path=%s, onnx_sha256=%s, notes=%s
abbrev pub reassign : String → String → Role → String → ModelRow → ModelRow
reassign path sha role notes r = record r {
  role = role;
  model_path = path;
  onnx_sha256 = sha;
  notes = notes;
}

unfoldable pub upsert_model : String → String → String → Role → String → Models → Result Models
upsert_model version path sha role notes table = elim (find_model version table) [
  | none ↦ ok (table ++ new_row version path sha role notes ∷ [])
  | some row ↦
      if same_role row.role role
      then ok table
      else if same_role row.role retired
      then raise runtime_error
      else ok (update_models (has_version version) (reassign path sha role notes) table)
]

-- WHERE role='challenger' AND model_version != %s
abbrev pub other_challenger : String → ModelRow → Bool
other_challenger version r = has_role challenger r && not (has_version version r)

unfoldable pub register_both : Time → String → String → Models → Result Models
register_both now champ_sha chall_sha table = do
  table ← upsert_model champ_sha champion_path champ_sha champion champion_notes table
  upsert_model chall_sha challenger_path chall_sha challenger challenger_notes
      (update_models (other_challenger chall_sha) (retire now) table)

-- `none` for an artifact that does not exist, and a flag for a server that does not answer. The
-- result is the two versions that are written to model_versions.json, and the table afterwards.
unfoldable pub main :
    Option String → Option String → Bool → Time → Models → Result (String × String) × Models
main none chall_sha reachable now table = (raise file_not_found, table)
main (some champ_sha) none reachable now table = (raise file_not_found, table)
main (some champ_sha) (some chall_sha) false now table = (raise runtime_error, table)
main (some champ_sha) (some chall_sha) true now table =
    elim (register_both now champ_sha chall_sha table) [
      | ok table' ↦ (ok (champ_sha, chall_sha), table')
      | raise e ↦ (raise e, table)
    ]
