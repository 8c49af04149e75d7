-- ===== src/Registry/Champions.antt =====
-- How many champions there are after an update of the roles.
use fraud_ml_platform.Shared.{
  ℕ, suc, ◌≤◌, String, ◌≡◌, refl, ◌≢◌, inl, inr, Bool, some, [], ◌∷◌, arith, str_eq_iff,
  if◌then◌else◌, Bool-cases,
}
use fraud_ml_platform.Database.{Time}
use fraud_ml_platform.Registry.Table.{
  Role, champion, ModelRow, Models, has_version, find_model, update_models, retire, role_of,
  IsAbsent, HasUniqueVersions, count_role,
}

unfoldable pub count_version : String → Models → ℕ
count_version version [] = 0
count_version version (r ∷ rs) =
    if has_version version r then suc (count_version version rs) else count_version version rs

count_version-absent :
    (version : String) (t : Models) → IsAbsent version t → count_version version t ≡ 0
unfolding count_version
count_version-absent version [] h = refl
count_version-absent version (r ∷ rs) h =
    ground (arith, h.0, str_eq_iff r.model_version version, count_version-absent version rs h.1)

pub count_version-le_one :
    (version : String) (t : Models) → HasUniqueVersions t → count_version version t ≤ 1
unfolding count_version
count_version-le_one version [] u = omega arith
count_version-le_one version (r ∷ rs) u = elim (Bool-cases (has_version version r)) [
  | inl same ↦
      let absent : IsAbsent version rs = rw (← (str_eq_iff r.model_version version).0 same) u.0 in
      ground (arith, same, count_version-absent version rs absent)
  | inr other ↦ ground (arith, other, count_version-le_one version rs u.1)
]

pub count_version-pos :
    (version : String) (t : Models) (role : Role)
    → role_of version t ≡ some role
    → 1 ≤ count_version version t
unfolding count_version find_model
count_version-pos version [] role h = cc
count_version-pos version (r ∷ rs) role h = ground (arith, count_version-pos version rs role)

pub count_role-le_update :
    (test : ModelRow → Bool) (now : Time) (t : Models)
    → count_role champion (update_models test (retire now) t) ≤ count_role champion t
unfolding count_role update_models
count_role-le_update test now [] = omega arith
count_role-le_update test now (r ∷ rs) = ground (arith, count_role-le_update test now rs)

-- Retiring a version that is a champion takes one away.
pub count_role-retire_champion :
    (now : Time) (version : String) (t : Models)
    → role_of version t ≡ some champion
    → suc (count_role champion (update_models (has_version version) (retire now) t))
      ≤ count_role champion t
unfolding count_role update_models find_model
count_role-retire_champion now version [] h = cc
count_role-retire_champion now version (r ∷ rs) h = ground (
  arith,
  count_role-retire_champion now version rs,
  count_role-le_update (has_version version) now rs,
)

update_models-absent :
    (version : String) (change : ModelRow → ModelRow) (t : Models)
    → IsAbsent version t
    → update_models (has_version version) change t ≡ t
unfolding update_models
update_models-absent version change [] h = refl
update_models-absent version change (r ∷ rs) h =
    ground
      (arith, h.0, str_eq_iff r.model_version version, update_models-absent version change rs h.1)

-- Retiring another role's version takes none away.
pub count_role-retire_other :
    (now : Time) (version : String) (t : Models)
    → HasUniqueVersions t
    → role_of version t ≢ some champion
    → count_role champion (update_models (has_version version) (retire now) t)
      ≡ count_role champion t
unfolding count_role update_models find_model
count_role-retire_other now version [] u h = refl
count_role-retire_other now version (r ∷ rs) u h = elim (Bool-cases (has_version version r)) [
  | inl same ↦
      let absent : IsAbsent version rs = rw (← (str_eq_iff r.model_version version).0 same) u.0 in
      ground (arith, same, h, update_models-absent version (retire now) rs absent)
  | inr other ↦ ground (arith, other, h, count_role-retire_other now version rs u.1)
]
