-- ===== src/Canary/Rollout.antt =====
-- monitoring/scripts/run_canary_evaluator.py. The job's state is the two tables that it writes and
-- the requests that it has sent. What the outside answers in one round of the loop is a `Tick`.
use fraud_ml_platform.Shared.{
  ℕ, String, Bool, false, not, ◌||◌, Option, none, some, List, [], ◌∷◌, ◌++◌, str_eq, if◌then◌else◌,
  FloatOps, codes, codes_eq, lower, runtime_error, database_error, Result, ok, raise,
}
use fraud_ml_platform.Canary.Evaluator.{evaluate_canary}
use fraud_ml_platform.Canary.Types.{
  Decision, promote, rollback, continue, inactive, canary_inactive, empty, CanaryDecision,
  CanaryConfig, CanaryRow, MetricFunctions,
}
use fraud_ml_platform.Database.{Time, Prediction, Label}
use fraud_ml_platform.Registry.Table.{
  champion, Models, has_role, has_version, update_models, retire, crown,
}

pub data Request : Type 0 where
  reload : (url model_path feature_order_path : String) → Request
  set_canary : (enabled : Bool) (challenger_pct shadow_pct : ℕ) → Request

pub record Job (F : Type 0) : Type 0 where
  pub models : Models
  pub decisions : List (CanaryRow F)
  pub requests : List Request

pub record RolloutConfig (F : Type 0) : Type 0 where
  pub canary : CanaryConfig F
  pub champion_serving_url : String
  pub challenger_model_path : String
  pub challenger_feature_order_path : String

-- One round: the clock, the fresh id, the tables that other jobs write, the router's answer (`none`
-- for a missing key), the version that the champion reports after a reload, whether the two
-- statements on the database succeed, and whether a signal has arrived by the end of the round.
pub record Tick (F : Type 0) : Type 0 where
  pub now : Time
  pub fresh_id : String
  pub predictions : List (Prediction F)
  pub labels : List Label
  pub router_answer : Result (Option String)
  pub reload_answer : Result String
  pub decision_saved : Bool
  pub roles_saved : Bool
  pub stopped : Bool

-- `_get_router_state` and the test on its result; an unreachable router counts as inactive.
unfoldable pub canary_active : Result (Option String) → Bool
canary_active (raise e) = false
canary_active (ok none) = false
canary_active (ok (some s)) = codes_eq (lower (codes s)) (codes "true")

module _ {F : Type 0} where
  abbrev pub send : Request → Job F → Job F
  send q job = record job { requests = job.requests ++ q ∷ [] }

  -- `_set_router_canary` swallows every exception, so that only the request is seen.
  abbrev pub set_router_canary : Bool → ℕ → ℕ → Job F → Job F
  set_router_canary enabled challenger_pct shadow_pct =
      send (set_canary enabled challenger_pct shadow_pct)

  unfoldable pub inactive_decision : Time → String → CanaryDecision F
  inactive_decision now id = record {
    decision = continue;
    outcome = inactive;
    reason = canary_inactive;
    metrics = empty;
    window_start = now;
    window_end = now;
    decision_id = id;
  }

-- The two UPDATEs of a promotion, in one transaction.
unfoldable pub promote_roles : Time → String → Models → Models
promote_roles now challenger_version table =
    update_models (has_version challenger_version) (crown now)
      (update_models (has_role champion) (retire now) table)

unfoldable pub rollback_roles : Time → String → Models → Models
rollback_roles now challenger_version = update_models (has_version challenger_version) (retire now)

module _ {F : Type 0} (fl : FloatOps F) (sk : MetricFunctions F) (cfg : RolloutConfig F) where
  unfoldable pub write_decision : Tick F → CanaryDecision F → Job F → Result (Unit {0}) × Job F
  write_decision t d job =
      if t.decision_saved
      then (
        ok tt,
        record job {
          decisions =
              job.decisions
              ++ record {
                champion_version = cfg.canary.champion_version;
                challenger_version = cfg.canary.challenger_version;
                verdict = d;
                created_at = t.now;
              }
                ∷ [];
        },
      )
      else (raise database_error, job)

  -- After the reload of a promotion.
  unfoldable pub finish_promotion : Tick F → Job F → Result (Unit {0}) × Job F
  finish_promotion t job = elim t.reload_answer [
    | raise e ↦ (ok tt, job)
    | ok new_ver ↦
        if not (str_eq new_ver cfg.canary.challenger_version)
        then (ok tt, job)
        else if t.roles_saved
        then (
          ok tt,
          set_router_canary false 0 0 (record job {
            models = promote_roles t.now cfg.canary.challenger_version job.models;
          }),
        )
        else (raise database_error, job)
  ]

  abbrev pub reload_champion : Job F → Job F
  reload_champion =
      send (
        reload cfg.champion_serving_url cfg.challenger_model_path cfg.challenger_feature_order_path)

  unfoldable pub apply_decision : Tick F → Decision → Job F → Result (Unit {0}) × Job F
  unfolding finish_promotion
  apply_decision t promote job = finish_promotion t (reload_champion job)
  apply_decision t rollback job =
      if t.roles_saved
      then (
        ok tt,
        set_router_canary false 0 0
            (record job { models = rollback_roles t.now cfg.canary.challenger_version job.models }),
      )
      else (raise database_error, job)
  apply_decision t continue job = (ok tt, job)

  unfoldable pub next_decision : Tick F → Job F → Result (CanaryDecision F)
  next_decision t job =
      if canary_active t.router_answer
      then evaluate_canary fl sk cfg.canary t.predictions t.labels job.decisions none t.now
          t.fresh_id
      else ok (inactive_decision t.now t.fresh_id)

  -- The write, and then the action, unless the write raised.
  unfoldable pub record_and_apply : Tick F → CanaryDecision F → Job F → Job F
  unfolding write_decision
  record_and_apply t d job =
      let (written, job') = write_decision t d job in
      elim written [ ok _ ↦ (apply_decision t d.decision job').1 | raise _ ↦ job' ]

  -- One round. `except Exception` logs, and the loop goes on from what was done before the raise.
  unfoldable pub iterate : Tick F → Job F → Job F
  iterate t job = elim (next_decision t job) [ ok d ↦ record_and_apply t d job | raise e ↦ job ]

  -- `while not stopper.is_set()`, over the rounds that the outside allows.
  unfoldable pub run_loop : List (Tick F) → Job F → Job F
  run_loop [] job = job
  run_loop (t ∷ ts) job =
      let rest = run_loop ts (iterate t job) in if t.stopped then iterate t job else rest

  unfoldable pub main : List (Tick F) → Job F → Result (Job F)
  main ts job =
      if str_eq cfg.canary.champion_version "" || str_eq cfg.canary.challenger_version ""
      then raise runtime_error
      else ok (run_loop ts job)
