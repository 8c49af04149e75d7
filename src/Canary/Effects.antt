-- ===== src/Canary/Effects.antt =====
-- What a promotion and a rollback do, and what an interrupted one leaves behind.
use mathlib.Core.List.{append_assoc}
use fraud_ml_platform.Shared.{
  String, ◌≡◌, ap, ◌∙◌, ◌≢◌, inl, inr, Bool, true, false, none, some, [], ◌∷◌, ◌++◌, arith, str_eq,
  str_eq_iff, if◌then◌else◌, Option-cases, FloatOps, ok, Result-cases,
}
use fraud_ml_platform.Canary.Audit.{row_of, with_row, iterate-saved, next_decision-promoted}
use fraud_ml_platform.Canary.Champions.{
  crown-KeepsVersion, retire-KeepsVersion, count_role-promote_roles, IsSound,
}
use fraud_ml_platform.Canary.Rollout.{
  Request, reload, set_canary, Job, RolloutConfig, Tick, set_router_canary, promote_roles,
  rollback_roles, reload_champion, apply_decision, next_decision, iterate,
}
use fraud_ml_platform.Canary.Types.{
  Decision, promote, rollback, promoted, CanaryDecision, MetricFunctions,
}
use fraud_ml_platform.Database.{Time}
use fraud_ml_platform.Registry.Champions.{
  count_version-le_one, count_version-pos, count_role-retire_champion,
}
use fraud_ml_platform.Registry.Table.{
  Role, champion, retired, Models, same_role, has_role, has_version, find_model, update_models,
  retire, crown, role_of, HasUniqueVersions, count_role, find_model-update_models,
  find_model-has_version,
}

abbrev pub after_promotion : Bool → Role → Role
after_promotion is_promoted role =
    if is_promoted then champion else if same_role role champion then retired else role

-- The role of every version after the two UPDATEs of a promotion.
pub role_of-promote_roles :
    (now : Time) (winner version : String) (t : Models)
    → role_of version (promote_roles now winner t) ≡ elim (role_of version t) [
      | none ↦ none
      | some role ↦ some (after_promotion (str_eq version winner) role)
    ]
unfolding promote_roles
role_of-promote_roles now winner version t =
    let t1 = update_models (has_role champion) (retire now) t in
    let first =
      find_model-update_models (has_role champion) (retire now) (retire-KeepsVersion now) version
        t in
    let second =
      find_model-update_models (has_version winner) (crown now) (crown-KeepsVersion now) version
        t1 in
    elim (Option-cases (find_model version t)) [
      | inl absent ↦ ground (arith, absent, first, second)
      | inr (r, found) ↦
          let same = find_model-has_version version t r found in
          ground (
            arith,
            found,
            first,
            second,
            same,
            str_eq_iff r.model_version winner,
            str_eq_iff version winner,
          )
    ]

abbrev pub after_rollback : Bool → Role → Role
after_rollback is_rolled_back role = if is_rolled_back then retired else role

module _ {F : Type 0} (fl : FloatOps F) (sk : MetricFunctions F) (cfg : RolloutConfig F) where
  apply_decision-promotes :
      (t : Tick F) (d : Decision) (job : Job F)
      → d ≡ promote
      → t.reload_answer ≡ ok cfg.canary.challenger_version
      → t.roles_saved ≡ true
      → (apply_decision fl sk cfg t d job).1
        ≡ set_router_canary false 0 0 (record (reload_champion fl sk cfg job) {
          models = promote_roles t.now cfg.canary.challenger_version job.models;
        })
  unfolding apply_decision
  apply_decision-promotes t d job e reloaded stored =
      let v = cfg.canary.challenger_version in ground (arith, e, reloaded, stored, str_eq_iff v v)

  apply_decision-aborts :
      (t : Tick F) (d : Decision) (job : Job F)
      → d ≡ promote
      → t.reload_answer ≢ ok cfg.canary.challenger_version
      → (apply_decision fl sk cfg t d job).1 ≡ reload_champion fl sk cfg job
  unfolding apply_decision
  apply_decision-aborts t d job e failed = elim (Result-cases t.reload_answer) [
    | inr (x, a) ↦ ground (arith, e, a)
    | inl (v, a) ↦ ground (arith, e, a, failed, str_eq_iff v cfg.canary.challenger_version)
  ]

  apply_decision-rolls_back :
      (t : Tick F) (d : Decision) (job : Job F)
      → d ≡ rollback
      → t.roles_saved ≡ true
      → (apply_decision fl sk cfg t d job).1
        ≡ set_router_canary false 0 0
            (record job { models = rollback_roles t.now cfg.canary.challenger_version job.models })
  unfolding apply_decision
  apply_decision-rolls_back t d job e stored = ground (arith, e, stored)

module _ {F : Type 0} (fl : FloatOps F) (sk : MetricFunctions F) (cfg : RolloutConfig F)
    (t : Tick F) (job : Job F) (d : CanaryDecision F)
    (decided : next_decision fl sk cfg t job ≡ ok d) (saved : t.decision_saved ≡ true) where
  abbrev after : Job F
  after = iterate fl sk cfg t job

  abbrev challenger_version : String
  challenger_version = cfg.canary.challenger_version

  abbrev reload_request : Request
  reload_request =
      reload cfg.champion_serving_url cfg.challenger_model_path cfg.challenger_feature_order_path

  abbrev canary_off : Request
  canary_off = set_canary false 0 0

  -- A round that decides to promote, with the champion container reporting the challenger's version
  -- and a database that answers, makes a registered challenger the one champion, retires the version
  -- that was the champion, and leaves every other role. It asks for the reload, and then for the
  -- canary to be switched off, and sends nothing else.
  pub iterate-promotes :
      (role : Role)
      → d.decision ≡ promote
      → t.reload_answer ≡ ok challenger_version
      → t.roles_saved ≡ true
      → HasUniqueVersions job.models
      → role_of challenger_version job.models ≡ some role
      → (after.requests ≡ job.requests ++ reload_request ∷ canary_off ∷ [])
        × (count_role champion after.models ≡ 1)
        × ((version : String)
            → role_of version after.models ≡ elim (role_of version job.models) [
              | none ↦ none
              | some role ↦ some (after_promotion (str_eq version challenger_version) role)
            ])
  iterate-promotes role e reloaded stored u known =
      let row = with_row fl sk cfg t d job in
      let done =
        iterate-saved fl sk cfg t job d decided saved
        ∙ apply_decision-promotes fl sk cfg t d.decision row e reloaded stored in
      let models = ap (λ (j : Job F). j.models) done in
      (
        ap (λ (j : Job F). j.requests) done
            ∙ append_assoc job.requests (reload_request ∷ []) (canary_off ∷ []),
        omega (
          arith,
          ap (count_role champion) models,
          count_role-promote_roles t.now challenger_version job.models,
          count_version-le_one challenger_version job.models u,
          count_version-pos challenger_version job.models role known,
        ),
        λ version.
            ap (role_of version) models
            ∙ role_of-promote_roles t.now challenger_version version job.models,
      )

  -- A round that decides to promote while the champion container does not report the challenger's
  -- version, be it that the reload raised or that another version came back, leaves every role as it
  -- was and does not touch the router. All the same the row that it has appended to the decisions has
  -- the outcome promoted.
  pub iterate-aborted :
      d.decision ≡ promote
      → t.reload_answer ≢ ok challenger_version
      → (after.models ≡ job.models)
        × (after.requests ≡ job.requests ++ reload_request ∷ [])
        × (after.decisions ≡ job.decisions ++ row_of fl sk cfg t d ∷ [])
        × ((row_of fl sk cfg t d).verdict.outcome ≡ promoted)
  iterate-aborted e failed =
      let row = with_row fl sk cfg t d job in
      let done =
        iterate-saved fl sk cfg t job d decided saved
        ∙ apply_decision-aborts fl sk cfg t d.decision row e failed in
      (
        ap (λ (j : Job F). j.models) done,
        ap (λ (j : Job F). j.requests) done,
        ap (λ (j : Job F). j.decisions) done,
        next_decision-promoted fl sk cfg t job d decided e,
      )

  -- If the challenger has become the champion, because the request that switches the canary off
  -- after a promotion was lost, a later round that rolls back retires the only champion: the registry
  -- is left with none.
  pub iterate-no_champion :
      d.decision ≡ rollback
      → t.roles_saved ≡ true
      → IsSound job.models
      → role_of challenger_version job.models ≡ some champion
      → count_role champion after.models ≡ 0
  unfolding rollback_roles
  iterate-no_champion e stored s crowned =
      let row = with_row fl sk cfg t d job in
      let done =
        iterate-saved fl sk cfg t job d decided saved
        ∙ apply_decision-rolls_back fl sk cfg t d.decision row e stored in
      omega (
        arith,
        ap (λ (j : Job F). count_role champion j.models) done,
        s.one,
        count_role-retire_champion t.now challenger_version job.models crowned,
      )
