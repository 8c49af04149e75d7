-- ===== src/Migrations/Tests.antt =====
-- Runs of the migrations, and the instances of their theorems.
use fraud_ml_platform.Shared.{
  ℕ, ◌+◌, String, ◌≡◌, refl, ◌≢◌, true, false, Option, some, List, [], ◌∷◌, ◌++◌, arith, str_eq,
  str_eq_iff, ◌==◌, if◌then◌else◌, length, take, database_error, Result, ok, raise,
}
use fraud_ml_platform.Migrations.Apply.{main, migrations, Server, apply_one, apply_all}
use fraud_ml_platform.Migrations.Order.{AreDistinct, pending, apply_all-prefix}

-- A server that counts the statements that it executed, and fails on the third file.
abbrev read_text : String → Option ℕ
read_text f = if str_eq f "003_models_table.sql" then some 3 else some 1

abbrev execute : ℕ → ℕ → Result ℕ
execute sql n = if sql == 3 then raise database_error else ok (n + 1)

abbrev execute_all : ℕ → ℕ → Result ℕ
execute_all sql n = ok (n + 1)

abbrev fresh : Server ℕ
fresh = record { recorded = []; schema = 0 }

run : Unit {0}
unfolding main apply_all apply_one
run = tt

abbrev two_done : Server ℕ
two_done = record {
  recorded = "001_predictions_table.sql" ∷ "002_labels_table.sql" ∷ [];
  schema = 2;
}

stops_at_third : main read_text execute true fresh ≡ (raise database_error, two_done)
unfolding run
stops_at_third = refl

resumes :
    main read_text execute_all true two_done ≡ (ok tt, record { recorded = migrations; schema = 8 })
unfolding run
resumes = refl

differ : (a b : String) → str_eq a b ≡ false → a ≢ b
differ a b h e = ground (arith, str_eq_iff a b)

abbrev three : List String
three = "001_predictions_table.sql" ∷ "002_labels_table.sql" ∷ "003_models_table.sql" ∷ []

three-AreDistinct : AreDistinct three
three-AreDistinct = ((differ _ _ refl, (differ _ _ refl, tt)), ((differ _ _ refl, tt), (tt, tt)))

apply_all-prefix_example :
    (k : ℕ) × ((apply_all read_text execute three fresh).1.recorded
      ≡ [] ++ take k (pending [] three))
    × ((apply_all read_text execute three fresh).0 ≡ ok tt → k ≡ length (pending [] three))
apply_all-prefix_example = apply_all-prefix read_text execute three fresh three-AreDistinct
