-- ===== src/Registry/Table.antt =====
-- The table models (migrations/003_models_table.sql) and the shapes of the statements on it.
-- The column created_at is not modelled: no code reads it.
use mathlib.Core.Option
use fraud_ml_platform.Shared.{
  ℕ, suc, String, ◌≡◌, refl, ◌≢◌, Bool, true, false, Option, none, some, List, [], ◌∷◌, ◌++◌, map,
  arith, str_eq, str_eq_iff, if◌then◌else◌, All,
}
use fraud_ml_platform.Database.{Time}

pub data Role : Type 0 where
  champion challenger retired : Role

pub record ModelRow : Type 0 where
  pub model_version : String
  pub model_path : String
  pub onnx_sha256 : String
  pub role : Role
  pub notes : String
  pub promoted_at : Option Time
  pub retired_at : Option Time

abbrev pub Models : Type 0
Models = List ModelRow

abbrev pub same_role : Role → Role → Bool
same_role champion champion = true
same_role challenger challenger = true
same_role retired retired = true
same_role _ _ = false

abbrev pub has_role : Role → ModelRow → Bool
has_role role r = same_role r.role role

abbrev pub has_version : String → ModelRow → Bool
has_version version r = str_eq r.model_version version

-- SELECT .. WHERE model_version = %s, fetchone()
unfoldable pub find_model : String → Models → Option ModelRow
find_model version [] = none
find_model version (r ∷ rs) = if has_version version r then some r else find_model version rs

-- UPDATE models SET .. WHERE ..
unfoldable pub update_models : (ModelRow → Bool) → (ModelRow → ModelRow) → Models → Models
update_models test change [] = []
update_models test change (r ∷ rs) = (if test r then change r else r) ∷ update_models test change rs

-- SET role='retired', retired_at=NOW()
abbrev pub retire : Time → ModelRow → ModelRow
retire now r = record r { role = retired; retired_at = some now }

-- SET role='champion', promoted_at=NOW()
abbrev pub crown : Time → ModelRow → ModelRow
crown now r = record r { role = champion; promoted_at = some now }

abbrev pub role_of : String → Models → Option Role
role_of version table = Option.map (λ r. r.role) (find_model version table)

abbrev pub versions : Models → List String
versions table = map (λ r. r.model_version) table

-- The primary key: no version stands in two rows.
abbrev pub IsAbsent : String → Models → Type 0
IsAbsent version table = All (λ r. r.model_version ≢ version) table

abbrev pub HasUniqueVersions : Models → Type 0
HasUniqueVersions [] = Unit
HasUniqueVersions (r ∷ rs) = IsAbsent r.model_version rs × HasUniqueVersions rs

unfoldable pub count_role : Role → Models → ℕ
count_role role [] = 0
count_role role (r ∷ rs) = if has_role role r then suc (count_role role rs) else count_role role rs

-- An UPDATE that leaves the key alone.
abbrev pub KeepsVersion : (ModelRow → ModelRow) → Type 0
KeepsVersion change = (r : ModelRow) → (change r).model_version ≡ r.model_version

module _ (test : ModelRow → Bool) (change : ModelRow → ModelRow) (keeps : KeepsVersion change) where
  pub find_model-update_models :
      (version : String) (table : Models)
      → find_model version (update_models test change table)
        ≡ Option.map (λ r. if test r then change r else r) (find_model version table)
  unfolding find_model update_models
  find_model-update_models version [] = refl
  find_model-update_models version (r ∷ rs) =
      ground (arith, keeps r, find_model-update_models version rs)

  IsAbsent-update_models :
      (version : String) (table : Models)
      → IsAbsent version table
      → IsAbsent version (update_models test change table)
  unfolding update_models
  IsAbsent-update_models version [] h = tt
  IsAbsent-update_models version (r ∷ rs) h =
      (ground (arith, keeps r, h.0), IsAbsent-update_models version rs h.1)

  pub update_models-HasUniqueVersions :
      (table : Models)
      → HasUniqueVersions table
      → HasUniqueVersions (update_models test change table)
  unfolding update_models
  update_models-HasUniqueVersions [] h = tt
  update_models-HasUniqueVersions (r ∷ rs) h =
      let same : (if test r then change r else r).model_version ≡ r.model_version =
        ground (arith, keeps r) in
      (
        rw same (IsAbsent-update_models r.model_version rs h.0),
        update_models-HasUniqueVersions rs h.1,
      )

pub find_model-append :
    (version : String) (table : Models) (r : ModelRow)
    → find_model version (table ++ r ∷ []) ≡ elim (find_model version table) [
      | some x ↦ some x
      | none ↦ if has_version version r then some r else none
    ]
unfolding find_model
find_model-append version [] r = ground arith
find_model-append version (x ∷ xs) r = ground (arith, find_model-append version xs r)

-- A row that is found has the version that was looked for.
pub find_model-has_version :
    (version : String) (table : Models) (r : ModelRow)
    → find_model version table ≡ some r
    → r.model_version ≡ version
unfolding find_model
find_model-has_version version [] r h = cc
find_model-has_version version (x ∷ xs) r h =
    ground (arith, str_eq_iff x.model_version version, find_model-has_version version xs r)
