-- ===== src/Registry/Roles.antt =====
-- What a registration makes of the roles in the table.
use mathlib.Core.Option
use fraud_ml_platform.Shared.{
  String, ◌≡◌, refl, sym, ◌≢◌, ◌↔◌, ◌⊎◌, inl, inr, none, some, [], ◌∷◌, ◌++◌, arith, str_eq_iff,
  if◌then◌else◌, Option-cases, All-append, Exception, runtime_error, ok, raise,
}
use fraud_ml_platform.Registry.Register.{new_row, reassign, upsert_model}
use fraud_ml_platform.Registry.Table.{
  Role, retired, ModelRow, Models, has_version, find_model, update_models, role_of, IsAbsent,
  HasUniqueVersions, KeepsVersion, find_model-update_models, update_models-HasUniqueVersions,
  find_model-append, find_model-has_version,
}

reassign-KeepsVersion :
    (path sha : String) (role : Role) (notes : String) → KeepsVersion (reassign path sha role notes)
reassign-KeepsVersion path sha role notes r = refl

module _ (version path sha : String) (role : Role) (notes : String) (table : Models) where
  abbrev pub reassigned : Models
  reassigned = update_models (has_version version) (reassign path sha role notes) table

  pub upsert_model-cases :
      {table' : Models}
      → upsert_model version path sha role notes table ≡ ok table'
      → (find_model version table ≡ none)
          × (table' ≡ table ++ new_row version path sha role notes ∷ [])
        ⊎ ((r : ModelRow) × (find_model version table ≡ some r)
            × (((r.role ≡ role) × (table' ≡ table)) ⊎ ((r.role ≢ retired) × (table' ≡ reassigned))))
  unfolding upsert_model
  upsert_model-cases h = elim (Option-cases (find_model version table)) [
    | inl new ↦ inl (new, ground (arith, new))
    | inr (r, found) ↦ inr (r, found, ground (arith, found))
  ]

  find_model-reassigned :
      (other : String)
      → find_model other reassigned
        ≡ Option.map
            (λ r. if has_version version r then reassign path sha role notes r else r)
            (find_model other table)
  find_model-reassigned other =
      find_model-update_models (has_version version) (reassign path sha role notes)
        (reassign-KeepsVersion path sha role notes) other table

  -- The row of another version is not touched.
  pub find_model-upsert_model_ne :
      (other : String) {table' : Models}
      → other ≢ version
      → upsert_model version path sha role notes table ≡ ok table'
      → find_model other table' ≡ find_model other table
  find_model-upsert_model_ne other ne h =
      let appended = find_model-append other table (new_row version path sha role notes) in
      elim (Option-cases (find_model other table)) [
        | inl absent ↦ ground (
          arith,
          absent,
          upsert_model-cases h,
          appended,
          find_model-reassigned other,
          str_eq_iff version other,
        )
        | inr (r, found) ↦ ground (
          arith,
          found,
          upsert_model-cases h,
          appended,
          find_model-reassigned other,
          find_model-has_version other table r found,
          str_eq_iff r.model_version version,
        )
      ]

  -- A version that is registered has the role that was asked for.
  pub role_of-upsert_model :
      {table' : Models}
      → upsert_model version path sha role notes table ≡ ok table'
      → role_of version table' ≡ some role
  role_of-upsert_model h =
      let appended = find_model-append version table (new_row version path sha role notes) in
      elim (Option-cases (find_model version table)) [
        | inl absent ↦
            ground (arith, absent, upsert_model-cases h, appended, str_eq_iff version version)
        | inr (r, found) ↦ ground (
          arith,
          found,
          upsert_model-cases h,
          find_model-reassigned version,
          find_model-has_version version table r found,
          str_eq_iff r.model_version version,
        )
      ]

  -- A registration is refused exactly for a retired version that is to have another role.
  pub upsert_model-refused :
      (upsert_model version path sha role notes table ≡ raise runtime_error)
      ↔ ((role_of version table ≡ some retired) × (role ≢ retired))
  unfolding upsert_model
  upsert_model-refused = elim (Option-cases (find_model version table)) [
    | inl absent ↦ ground (arith, absent)
    | inr (r, found) ↦ ground (arith, found)
  ]

  pub upsert_model-error :
      {e : Exception} → upsert_model version path sha role notes table ≡ raise e → e ≡ runtime_error
  unfolding upsert_model
  upsert_model-error h = elim (Option-cases (find_model version table)) [
    | inl absent ↦ ground (arith, absent)
    | inr (r, found) ↦ ground (arith, found)
  ]

  find_model-none-IsAbsent : (t : Models) → find_model version t ≡ none → IsAbsent version t
  unfolding find_model
  find_model-none-IsAbsent [] h = tt
  find_model-none-IsAbsent (r ∷ rs) h = (
    ground (arith, str_eq_iff r.model_version version),
    find_model-none-IsAbsent rs (ground arith),
  )

  HasUniqueVersions-snoc :
      (t : Models) (r : ModelRow)
      → IsAbsent r.model_version t
      → HasUniqueVersions t
      → HasUniqueVersions (t ++ r ∷ [])
  HasUniqueVersions-snoc [] r h u = (tt, tt)
  HasUniqueVersions-snoc (x ∷ xs) r h u = (
    All-append (λ y. y.model_version ≢ x.model_version) xs (r ∷ []) u.0 ((λ e. h.0 (sym e)), tt),
    HasUniqueVersions-snoc xs r h.1 u.1,
  )

  pub upsert_model-HasUniqueVersions :
      {table' : Models}
      → HasUniqueVersions table
      → upsert_model version path sha role notes table ≡ ok table'
      → HasUniqueVersions table'
  upsert_model-HasUniqueVersions u h = elim (upsert_model-cases h) [
    | inl (new, e) ↦ rw e (HasUniqueVersions-snoc table _ (find_model-none-IsAbsent table new) u)
    | inr (r, found, inl (_, e)) ↦ rw e u
    | inr (r, found, inr (_, e)) ↦ rw e (
        update_models-HasUniqueVersions (has_version version) (reassign path sha role notes)
          (reassign-KeepsVersion path sha role notes) table u)
  ]
