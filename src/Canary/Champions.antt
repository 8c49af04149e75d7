-- ===== src/Canary/Champions.antt =====
-- What the canary job does to the roles in the registry.
use fraud_ml_platform.Shared.{
  ◌≤◌, String, ◌≡◌, refl, ◌⊎◌, inl, inr, true, List, [], ◌∷◌, arith, str_eq_iff, Bool-cases,
  FloatOps, ok, Result-cases,
}
use fraud_ml_platform.Canary.Audit.{with_row, iterate-cases, run_loop-stopped, run_loop-next}
use fraud_ml_platform.Canary.Rollout.{
  Job, RolloutConfig, Tick, promote_roles, rollback_roles, apply_decision, iterate, run_loop,
}
use fraud_ml_platform.Canary.Types.{Decision, promote, rollback, continue, MetricFunctions}
use fraud_ml_platform.Database.{Time}
use fraud_ml_platform.Registry.Champions.{count_version, count_version-le_one, count_role-le_update}
use fraud_ml_platform.Registry.Table.{
  champion, Models, has_role, has_version, update_models, retire, crown, HasUniqueVersions,
  count_role, KeepsVersion, update_models-HasUniqueVersions,
}

pub crown-KeepsVersion : (now : Time) → KeepsVersion (crown now)
crown-KeepsVersion now r = refl

pub retire-KeepsVersion : (now : Time) → KeepsVersion (retire now)
retire-KeepsVersion now r = refl

-- After a promotion the champions are the rows of the promoted version.
pub count_role-promote_roles :
    (now : Time) (version : String) (t : Models)
    → count_role champion (promote_roles now version t) ≡ count_version version t
unfolding promote_roles count_role count_version update_models
count_role-promote_roles now version [] = refl
count_role-promote_roles now version (r ∷ rs) =
    ground (arith, count_role-promote_roles now version rs)

-- One champion at most, and the primary key.
pub record IsSound (t : Models) : Type 0 where
  pub unique : HasUniqueVersions t
  pub one : count_role champion t ≤ 1

promote_roles-IsSound :
    (now : Time) (version : String) (t : Models) → IsSound t → IsSound (promote_roles now version t)
unfolding promote_roles
promote_roles-IsSound now version t s =
    let kept =
      update_models-HasUniqueVersions (has_role champion) (retire now) (retire-KeepsVersion now) t
        s.unique in
    record {
      unique =
          update_models-HasUniqueVersions (has_version version) (crown now) (crown-KeepsVersion now)
            _ kept;
      one =
          omega (
            arith,
            count_role-promote_roles now version t,
            count_version-le_one version t s.unique,
          );
    }

rollback_roles-IsSound :
    (now : Time) (version : String) (t : Models)
    → IsSound t
    → IsSound (rollback_roles now version t)
unfolding rollback_roles
rollback_roles-IsSound now version t s = record {
  unique =
      update_models-HasUniqueVersions (has_version version) (retire now) (retire-KeepsVersion now) t
        s.unique;
  one = omega (arith, count_role-le_update (has_version version) now t, s.one);
}

module _ {F : Type 0} (fl : FloatOps F) (sk : MetricFunctions F) (cfg : RolloutConfig F) where
  -- The three ways in which an action can leave the registry.
  pub models-apply_decision :
      (t : Tick F) (d : Decision) (job : Job F)
      → ((apply_decision fl sk cfg t d job).1.models ≡ job.models)
        ⊎ (((d ≡ promote)
              × (t.reload_answer ≡ ok cfg.canary.challenger_version)
              × (t.roles_saved ≡ true)
              × ((apply_decision fl sk cfg t d job).1.models
                  ≡ promote_roles t.now cfg.canary.challenger_version job.models))
            ⊎ ((d ≡ rollback)
                × (t.roles_saved ≡ true)
                × ((apply_decision fl sk cfg t d job).1.models
                    ≡ rollback_roles t.now cfg.canary.challenger_version job.models)))
  unfolding apply_decision
  models-apply_decision t promote job = elim (Result-cases t.reload_answer) [
    | inr (x, e) ↦ inl (ground (arith, e))
    | inl (v, e) ↦ ground (arith, e, str_eq_iff v cfg.canary.challenger_version)
  ]
  models-apply_decision t rollback job = ground arith
  models-apply_decision t continue job = inl refl

  apply_decision-IsSound :
      (t : Tick F) (d : Decision) (job : Job F)
      → IsSound job.models
      → IsSound (apply_decision fl sk cfg t d job).1.models
  apply_decision-IsSound t d job s = elim (models-apply_decision t d job) [
    | inl same ↦ rw same s
    | inr (inl (_, _, _, e)) ↦ rw e (promote_roles-IsSound t.now _ job.models s)
    | inr (inr (_, _, e)) ↦ rw e (rollback_roles-IsSound t.now _ job.models s)
  ]

  iterate-IsSound :
      (t : Tick F) (job : Job F) → IsSound job.models → IsSound (iterate fl sk cfg t job).models
  iterate-IsSound t job s = elim (iterate-cases fl sk cfg t job) [
    | inl same ↦ rw same s
    | inr (d, e, saved, done) ↦
        rw done (apply_decision-IsSound t d.decision (with_row fl sk cfg t d job) s)
  ]

  -- Over any run of the loop, whatever the outside answers, the primary key holds and there is never
  -- more than one champion, if both held at the start.
  pub run_loop-IsSound :
      (ts : List (Tick F)) (job : Job F)
      → IsSound job.models
      → IsSound (run_loop fl sk cfg ts job).models
  run_loop-IsSound [] job s = unfold run_loop in s
  run_loop-IsSound (t ∷ ts) job s = elim (Bool-cases t.stopped) [
    | inl stop ↦ rw (run_loop-stopped fl sk cfg t ts job stop) (iterate-IsSound t job s)
    | inr go ↦
        rw (run_loop-next fl sk cfg t ts job go)
          (run_loop-IsSound ts (iterate fl sk cfg t job) (iterate-IsSound t job s))
  ]
