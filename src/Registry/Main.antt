-- ===== src/Registry/Main.antt =====
-- What a run of register_models.py guarantees, and what it does not.
use mathlib.Core.Option
use fraud_ml_platform.Shared.{
  ◌≤◌, String, ◌≡◌, refl, sym, ◌≢◌, ◌↔◌, ◌⊎◌, inl, inr, true, some, [], ◌∷◌, arith, str_eq_iff,
  if◌then◌else◌, Option-cases, All, All-append, Exception, runtime_error, ok, raise, Result-cases,
  >>=-eq-ok,
}
use fraud_ml_platform.Database.{Time}
use fraud_ml_platform.Registry.Register.{
  champion_path, challenger_path, champion_notes, challenger_notes, upsert_model, other_challenger,
  register_both,
}
use fraud_ml_platform.Registry.Roles.{
  reassigned, upsert_model-cases, find_model-upsert_model_ne, role_of-upsert_model,
  upsert_model-refused, upsert_model-error, upsert_model-HasUniqueVersions,
}
use fraud_ml_platform.Registry.Table.{
  Role, champion, challenger, retired, Models, has_role, find_model, update_models, retire, role_of,
  HasUniqueVersions, count_role, KeepsVersion, find_model-update_models,
  update_models-HasUniqueVersions, find_model-has_version,
}

-- Every challenger in the table is of this version.
abbrev pub OnlyChallenger : String → Models → Type 0
OnlyChallenger version = All (λ r. has_role challenger r ≡ true → r.model_version ≡ version)

retire-KeepsVersion : (now : Time) → KeepsVersion (retire now)
retire-KeepsVersion now r = refl

OnlyChallenger-retired :
    (now : Time) (version : String) (t : Models)
    → OnlyChallenger version (update_models (other_challenger version) (retire now) t)
unfolding update_models
OnlyChallenger-retired now version [] = tt
OnlyChallenger-retired now version (r ∷ rs) =
    (ground (arith, str_eq_iff r.model_version version), OnlyChallenger-retired now version rs)

OnlyChallenger-reassigned :
    (version path sha : String) (role : Role) (notes : String) (t : Models)
    → OnlyChallenger version t
    → OnlyChallenger version (reassigned version path sha role notes t)
unfolding update_models
OnlyChallenger-reassigned version path sha role notes [] h = tt
OnlyChallenger-reassigned version path sha role notes (r ∷ rs) h = (
  ground (arith, h.0, str_eq_iff r.model_version version),
  OnlyChallenger-reassigned version path sha role notes rs h.1,
)

OnlyChallenger-upsert_model :
    (version path sha : String) (role : Role) (notes : String) (t : Models) {t' : Models}
    → OnlyChallenger version t
    → upsert_model version path sha role notes t ≡ ok t'
    → OnlyChallenger version t'
OnlyChallenger-upsert_model version path sha role notes t h e =
    elim (upsert_model-cases version path sha role notes t e) [
      | inl (new, e') ↦ rw e' (All-append _ t _ h ((λ _. refl), tt))
      | inr (r, found, inl (_, e')) ↦ rw e' h
      | inr (r, found, inr (_, e')) ↦
          rw e' (OnlyChallenger-reassigned version path sha role notes t h)
    ]

module _ (now : Time) (champ_sha chall_sha : String) (table : Models) where
  -- The table between the two registrations.
  abbrev between : Models → Models
  between t = update_models (other_challenger chall_sha) (retire now) t

  register_both-steps :
      {t' : Models}
      → register_both now champ_sha chall_sha table ≡ ok t'
      → (t : Models) × (upsert_model champ_sha champion_path champ_sha champion champion_notes table
          ≡ ok t)
        × (upsert_model chall_sha challenger_path chall_sha challenger challenger_notes (between t)
            ≡ ok t')
  unfolding register_both
  register_both-steps h = >>=-eq-ok _ _ h

  find_model-between :
      (version : String) (t : Models)
      → find_model version (between t)
        ≡ Option.map
            (λ r. if other_challenger chall_sha r then retire now r else r)
            (find_model version t)
  find_model-between version t =
      find_model-update_models (other_challenger chall_sha) (retire now) (retire-KeepsVersion now)
        version t

  pub register_both-roles :
      {t' : Models}
      → champ_sha ≢ chall_sha
      → register_both now champ_sha chall_sha table ≡ ok t'
      → (role_of champ_sha t' ≡ some champion)
        × (role_of chall_sha t' ≡ some challenger)
        × OnlyChallenger chall_sha t'
  register_both-roles ne h =
      let (t, e1, e2) = register_both-steps h in
      let kept =
        find_model-upsert_model_ne chall_sha challenger_path chall_sha challenger challenger_notes
          (between t) champ_sha ne e2 in
      let crowned =
        role_of-upsert_model champ_sha champion_path champ_sha champion champion_notes table e1 in
      (
        rw (kept, find_model-between) (ground (arith, crowned)),
        role_of-upsert_model chall_sha challenger_path chall_sha challenger challenger_notes
            (between t) e2,
        OnlyChallenger-upsert_model chall_sha challenger_path chall_sha challenger challenger_notes
            (between t) (OnlyChallenger-retired now chall_sha t) e2,
      )

  find_model-between_self : (t : Models) → find_model chall_sha (between t) ≡ find_model chall_sha t
  find_model-between_self t = elim (Option-cases (find_model chall_sha t)) [
    | inl absent ↦ rw (find_model-between, absent)
    | inr (r, found) ↦ ground (
      arith,
      found,
      find_model-between chall_sha t,
      find_model-has_version chall_sha t r found,
      str_eq_iff r.model_version chall_sha,
    )
  ]

  -- A champion of a third version is left in its role.
  pub register_both-third :
      (version : String) {t' : Models}
      → version ≢ champ_sha
      → version ≢ chall_sha
      → role_of version table ≡ some champion
      → register_both now champ_sha chall_sha table ≡ ok t'
      → role_of version t' ≡ some champion
  register_both-third version nc nh old h =
      let (t, e1, e2) = register_both-steps h in
      let kept1 =
        find_model-upsert_model_ne champ_sha champion_path champ_sha champion champion_notes table
          version nc e1 in
      let kept2 =
        find_model-upsert_model_ne chall_sha challenger_path chall_sha challenger challenger_notes
          (between t) version nh e2 in
      let still : role_of version t ≡ some champion = rw kept1 old in
      rw (kept2, find_model-between) (ground (arith, still))

  pub register_both-HasUniqueVersions :
      {t' : Models}
      → HasUniqueVersions table
      → register_both now champ_sha chall_sha table ≡ ok t'
      → HasUniqueVersions t'
  register_both-HasUniqueVersions u h =
      let (t, e1, e2) = register_both-steps h in
      let u1 =
        upsert_model-HasUniqueVersions champ_sha champion_path champ_sha champion champion_notes
          table u e1 in
      upsert_model-HasUniqueVersions chall_sha challenger_path chall_sha challenger challenger_notes
        (between t)
        (update_models-HasUniqueVersions (other_challenger chall_sha) (retire now)
          (retire-KeepsVersion now) t u1)
        e2

  role_of-between_self :
      {t : Models}
      → champ_sha ≢ chall_sha
      → upsert_model champ_sha champion_path champ_sha champion champion_notes table ≡ ok t
      → role_of chall_sha (between t) ≡ role_of chall_sha table
  role_of-between_self {t} ne e = rw (
    find_model-between_self,
    find_model-upsert_model_ne champ_sha champion_path champ_sha champion champion_notes table
        chall_sha (λ p. ne (sym p)) e,
  )

  pub register_both-error :
      {x : Exception} → register_both now champ_sha chall_sha table ≡ raise x → x ≡ runtime_error
  unfolding register_both
  register_both-error h =
      elim (Result-cases
        (upsert_model champ_sha champion_path champ_sha champion champion_notes table)) [
          | inl (t, e) ↦
              upsert_model-error chall_sha challenger_path chall_sha challenger challenger_notes
                (between t) (rw e at h)
          | inr (x, e) ↦
              let first =
                upsert_model-error champ_sha champion_path champ_sha champion champion_notes table
                  e in
              ground (arith, e, first, h)
        ]

  pub register_both-refused :
      champ_sha ≢ chall_sha
      → (register_both now champ_sha chall_sha table ≡ raise runtime_error)
        ↔ ((role_of champ_sha table ≡ some retired) ⊎ (role_of chall_sha table ≡ some retired))
  unfolding register_both
  register_both-refused ne =
      let refused1 =
        upsert_model-refused champ_sha champion_path champ_sha champion champion_notes table in
      elim (Result-cases
        (upsert_model champ_sha champion_path champ_sha champion champion_notes table)) [
          | inl (t, e) ↦
              let refused2 =
                upsert_model-refused chall_sha challenger_path chall_sha challenger challenger_notes
                  (between t) in
              let same = role_of-between_self ne e in ground (arith, e, refused1, refused2, same)
          | inr (x, e) ↦
              let first =
                upsert_model-error champ_sha champion_path champ_sha champion champion_notes table
                  e in
              ground (arith, e, refused1, first)
        ]

count_role-one : (t : Models) (v : String) → role_of v t ≡ some champion → 1 ≤ count_role champion t
unfolding find_model count_role
count_role-one [] v h = cc
count_role-one (r ∷ rs) v h = ground (arith, count_role-one rs v)

pub count_role-two :
    (t : Models) (v w : String)
    → v ≢ w
    → role_of v t ≡ some champion
    → role_of w t ≡ some champion
    → 2 ≤ count_role champion t
unfolding find_model count_role
count_role-two [] v w ne hv hw = cc
count_role-two (r ∷ rs) v w ne hv hw = ground (
  arith,
  str_eq_iff r.model_version v,
  str_eq_iff r.model_version w,
  count_role-one rs v,
  count_role-one rs w,
  count_role-two rs v w ne,
)
