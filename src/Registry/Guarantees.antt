-- ===== src/Registry/Guarantees.antt =====
-- register_models.py as a whole: the roles after a run, its refusals, and its repetition.
use fraud_ml_platform.Shared.{
  ◌≤◌, String, ◌≡◌, refl, ap, ◌∙◌, ◌≢◌, ◌↔◌, ◌⊎◌, inl, inr, Bool, true, false, some, [], ◌∷◌, arith,
  str_eq_iff, Option-cases, All, runtime_error, Result, ok, raise, Result-cases,
}
use fraud_ml_platform.Database.{Time}
use fraud_ml_platform.Registry.Main.{
  OnlyChallenger, register_both-roles, register_both-third, register_both-HasUniqueVersions,
  register_both-error, register_both-refused, count_role-two,
}
use fraud_ml_platform.Registry.Register.{
  champion_path, challenger_path, champion_notes, challenger_notes, upsert_model, other_challenger,
  register_both, main,
}
use fraud_ml_platform.Registry.Table.{
  Role, champion, challenger, retired, ModelRow, Models, find_model, update_models, retire, role_of,
  HasUniqueVersions, count_role,
}

module _ (champ_sha chall_sha : String) (now : Time) (table : Models) where
  abbrev run : Result (String × String) × Models
  run = main (some champ_sha) (some chall_sha) true now table

  register_both-of_main :
      {v : String × String} {t' : Models}
      → run ≡ (ok v, t')
      → (v ≡ (champ_sha, chall_sha)) × (register_both now champ_sha chall_sha table ≡ ok t')
  unfolding main
  register_both-of_main h = elim (Result-cases (register_both now champ_sha chall_sha table)) [
    | inl (t, e) ↦ ground (arith, e)
    | inr (x, e) ↦ ground (arith, e)
  ]

  -- After a successful run with two different artifacts the first digest is the champion, the second
  -- is the challenger and the only one, the digests are the versions that are written out, and the
  -- primary key still holds if it held before.
  pub main-registers :
      {v : String × String} {t' : Models}
      → champ_sha ≢ chall_sha
      → HasUniqueVersions table
      → run ≡ (ok v, t')
      → (v ≡ (champ_sha, chall_sha))
        × (role_of champ_sha t' ≡ some champion)
        × (role_of chall_sha t' ≡ some challenger)
        × OnlyChallenger chall_sha t'
        × HasUniqueVersions t'
  main-registers ne u h =
      let (written, done) = register_both-of_main h in
      let (champ, chall, only) = register_both-roles now champ_sha chall_sha table ne done in
      (
        written,
        champ,
        chall,
        only,
        register_both-HasUniqueVersions now champ_sha chall_sha table u done,
      )

  -- With two different artifacts and a server that answers, the run is refused exactly if one of the
  -- two versions is retired in the table. A retired version is never brought back.
  pub main-refuses :
      champ_sha ≢ chall_sha
      → (run ≡ (raise runtime_error, table))
        ↔ ((role_of champ_sha table ≡ some retired) ⊎ (role_of chall_sha table ≡ some retired))
  unfolding main
  main-refuses ne =
      let refused = register_both-refused now champ_sha chall_sha table ne in
      elim (Result-cases (register_both now champ_sha chall_sha table)) [
        | inl (t, e) ↦ ground (arith, e, refused)
        | inr (x, e) ↦ ground (arith, e, refused)
      ]

  -- With two different versions that are not retired, the run succeeds, and they have their roles.
  pub main-succeeds :
      champ_sha ≢ chall_sha
      → role_of champ_sha table ≢ some retired
      → role_of chall_sha table ≢ some retired
      → (t' : Models) × (run ≡ (ok (champ_sha, chall_sha), t'))
        × (role_of champ_sha t' ≡ some champion)
        × (role_of chall_sha t' ≡ some challenger)
  unfolding main
  main-succeeds ne fresh fresh' =
      elim (Result-cases (register_both now champ_sha chall_sha table)) [
        | inl (t, e) ↦
            let roles = register_both-roles now champ_sha chall_sha table ne e in
            (t, ground (arith, e), roles.0, roles.1)
        | inr (x, e) ↦
            let known = register_both-error now champ_sha chall_sha table e in
            absurd
              (elim ((register_both-refused now champ_sha chall_sha table ne).0
                (e ∙ ap (λ y. raise y) known)) [ inl h ↦ fresh h | inr h ↦ fresh' h ])
      ]

  -- A run leaves a champion of a third version in its role, so the table then has two champions.
  pub main-second_champion :
      (version : String) {v : String × String} {t' : Models}
      → champ_sha ≢ chall_sha
      → version ≢ champ_sha
      → version ≢ chall_sha
      → role_of version table ≡ some champion
      → run ≡ (ok v, t')
      → (role_of version t' ≡ some champion) × (2 ≤ count_role champion t')
  main-second_champion version ne nc nh old h =
      let done = (register_both-of_main h).1 in
      let still = register_both-third now champ_sha chall_sha table version nc nh old done in
      (
        still,
        count_role-two _ version champ_sha nc still
            (register_both-roles now champ_sha chall_sha table ne done).0,
      )

update_models-same :
    (test : ModelRow → Bool) (change : ModelRow → ModelRow) (t : Models)
    → All (λ r. test r ≡ false) t
    → update_models test change t ≡ t
unfolding update_models
update_models-same test change [] h = refl
update_models-same test change (r ∷ rs) h = rw (h.0, update_models-same test change rs h.1)

OnlyChallenger-none_other :
    (version : String) (t : Models)
    → OnlyChallenger version t
    → All (λ r. other_challenger version r ≡ false) t
OnlyChallenger-none_other version [] h = tt
OnlyChallenger-none_other version (r ∷ rs) h = (
  ground (arith, h.0, str_eq_iff r.model_version version),
  OnlyChallenger-none_other version rs h.1,
)

upsert_model-current :
    (version path sha : String) (role : Role) (notes : String) (t : Models)
    → role_of version t ≡ some role
    → upsert_model version path sha role notes t ≡ ok t
unfolding upsert_model
upsert_model-current version path sha role notes t h = elim (Option-cases (find_model version t)) [
  | inl absent ↦ ground (arith, absent)
  | inr (r, found) ↦ ground (arith, found)
]

register_both-current :
    (now : Time) (champ_sha chall_sha : String) (t : Models)
    → role_of champ_sha t ≡ some champion
    → role_of chall_sha t ≡ some challenger
    → OnlyChallenger chall_sha t
    → register_both now champ_sha chall_sha t ≡ ok t
unfolding register_both
register_both-current now champ_sha chall_sha t champ chall only = rw (
  upsert_model-current champ_sha champion_path champ_sha champion champion_notes t champ,
  update_models-same (other_challenger chall_sha) (retire now) t
      (OnlyChallenger-none_other chall_sha t only),
  upsert_model-current chall_sha challenger_path chall_sha challenger challenger_notes t chall,
)

-- A second run with the same artifacts, at any later time, succeeds and changes nothing.
pub main-idempotent :
    (champ_sha chall_sha : String) (now later : Time) (table : Models) {v : String × String}
    {t' : Models}
    → champ_sha ≢ chall_sha
    → main (some champ_sha) (some chall_sha) true now table ≡ (ok v, t')
    → main (some champ_sha) (some chall_sha) true later t' ≡ (ok v, t')
unfolding main
main-idempotent champ_sha chall_sha now later table {v} {t'} ne h =
    let (written, done) = register_both-of_main champ_sha chall_sha now table h in
    let (champ, chall, only) = register_both-roles now champ_sha chall_sha table ne done in
    let again = register_both-current later champ_sha chall_sha t' champ chall only in
    ground (arith, again, written)
