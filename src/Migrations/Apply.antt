-- ===== src/Migrations/Apply.antt =====
-- monitoring/scripts/apply_migrations.py. The text of a file and what the server makes of it are
-- parameters: a file may be missing and a statement may fail.
use fraud_ml_platform.Shared.{
  String, Bool, true, false, Option, none, some, List, [], ◌∷◌, ◌++◌, str_eq, if◌then◌else◌, any_of,
  runtime_error, file_not_found, Result, ok, raise, ◌>>=◌,
}

abbrev pub migrations : List String
migrations =
    "001_predictions_table.sql" ∷ "002_labels_table.sql" ∷ "003_models_table.sql"
    ∷ "004_drift_alerts_table.sql" ∷ "005_canary_decisions_table.sql"
    ∷ "006_shadow_comparisons_table.sql" ∷ "007_shadow_summaries_table.sql"
    ∷ "008_canary_decisions_outcome.sql" ∷ []

-- The table schema_migrations, and the rest of the database.
pub record Server (S : Type 0) : Type 0 where
  pub recorded : List String
  pub schema : S

abbrev pub is_recorded : String → List String → Bool
is_recorded filename = any_of (λ r. str_eq r filename)

module _ {S Sql : Type 0} (read_text : String → Option Sql) (execute : Sql → S → Result S) where
  -- The body of the loop. The statement and its record are one transaction.
  unfoldable pub apply_one : String → Server S → Result (Server S)
  apply_one filename db =
      if is_recorded filename db.recorded then ok db else elim (read_text filename) [
        | none ↦ raise file_not_found
        | some sql ↦ do
          schema ← execute sql db.schema
          ok (record { recorded = db.recorded ++ filename ∷ []; schema = schema })
      ]

  -- What was committed before a raise stays.
  unfoldable pub apply_all : List String → Server S → Result (Unit {0}) × Server S
  apply_all [] db = (ok tt, db)
  apply_all (filename ∷ rest) db = elim (apply_one filename db) [
    | ok db' ↦ apply_all rest db'
    | raise e ↦ (raise e, db)
  ]

  unfoldable pub main : Bool → Server S → Result (Unit {0}) × Server S
  main false db = (raise runtime_error, db)
  main true db = apply_all migrations db
