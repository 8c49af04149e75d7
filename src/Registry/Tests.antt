-- ===== src/Registry/Tests.antt =====
-- Runs of the registration on small tables, and the instances of its theorems.
use fraud_ml_platform.Shared.{
  ◌≤◌, String, ◌≡◌, refl, ◌≢◌, ◌↔◌, ◌⊎◌, true, false, none, some, [], ◌∷◌, arith, str_eq,
  str_eq_iff, runtime_error, file_not_found, ok, raise,
}
use fraud_ml_platform.Registry.Guarantees.{main-registers, main-refuses, main-second_champion}
use fraud_ml_platform.Registry.Main.{OnlyChallenger}
use fraud_ml_platform.Registry.Register.{
  champion_path, challenger_path, champion_notes, challenger_notes, new_row, upsert_model,
  register_both, main,
}
use fraud_ml_platform.Registry.Table.{
  Role, champion, challenger, retired, ModelRow, Models, find_model, update_models, retire, role_of,
  HasUniqueVersions, count_role,
}

abbrev model : String → Role → ModelRow
model version role = new_row version "" version role ""

abbrev old_table : Models
old_table = model "c0" champion ∷ model "h0" challenger ∷ []

registration : Unit {0}
unfolding main register_both upsert_model update_models find_model count_role
registration = tt

abbrev first_table : Models
first_table =
    model "c0" champion
    ∷ retire 7 (model "h0" challenger)
    ∷ new_row "c1" champion_path "c1" champion champion_notes
    ∷ new_row "h1" challenger_path "h1" challenger challenger_notes
    ∷ []

run_first : main (some "c1") (some "h1") true 7 old_table ≡ (ok ("c1", "h1"), first_table)
unfolding registration
run_first = refl

missing_artifact : main (some "c1") none true 7 old_table ≡ (raise file_not_found, old_table)
unfolding registration
missing_artifact = refl

differ : (a b : String) → str_eq a b ≡ false → a ≢ b
differ a b h e = ground (arith, str_eq_iff a b)

old_table-HasUniqueVersions : HasUniqueVersions old_table
old_table-HasUniqueVersions = ((differ "h0" "c0" refl, tt), (tt, tt))

main-registers_example :
    (◌≡◌ {A = String × String} ("c1", "h1") ("c1", "h1"))
    × (role_of "c1" first_table ≡ some champion)
    × (role_of "h1" first_table ≡ some challenger)
    × OnlyChallenger "h1" first_table
    × HasUniqueVersions first_table
main-registers_example =
    main-registers "c1" "h1" 7 old_table (differ "c1" "h1" refl) old_table-HasUniqueVersions
      run_first

abbrev retired_table : Models
retired_table = model "h1" retired ∷ []

main-refuses_example :
    (main (some "c1") (some "h1") true 7 retired_table ≡ (raise runtime_error, retired_table))
    ↔ ((role_of "c1" retired_table ≡ some retired) ⊎ (role_of "h1" retired_table ≡ some retired))
main-refuses_example = main-refuses "c1" "h1" 7 retired_table (differ "c1" "h1" refl)

main-second_champion_example :
    (role_of "c0" first_table ≡ some champion) × (2 ≤ count_role champion first_table)
main-second_champion_example =
    main-second_champion "c1" "h1" 7 old_table "c0" (differ "c1" "h1" refl) (differ "c0" "c1" refl)
      (differ "c0" "h1" refl) (unfold registration in refl) run_first
