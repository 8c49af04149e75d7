-- ===== src/Canary/Rounds.antt =====
-- Rounds of the canary job on small inputs, and the instances of its theorems.
use mathlib.Core.Bool.{false≢true}
use fraud_ml_platform.Shared.{
  ◌+◌, ◌-◌, ◌*◌, ◌≤◌, String, ◌≡◌, refl, ◌≢◌, true, false, none, some, List, [], ◌∷◌, ◌++◌, arith,
  str_eq, str_eq_iff, ℤ, pos, http_error, Result, ok, raise,
}
use fraud_ml_platform.Canary.Audit.{row_of}
use fraud_ml_platform.Canary.Champions.{IsSound, run_loop-IsSound}
use fraud_ml_platform.Canary.Effects.{
  after_promotion, iterate-promotes, iterate-aborted, iterate-no_champion,
}
use fraud_ml_platform.Canary.Restart.{iterate-aborted_restarts}
use fraud_ml_platform.Canary.Rollout.{
  reload, set_canary, Job, RolloutConfig, Tick, canary_active, inactive_decision, promote_roles,
  rollback_roles, write_decision, finish_promotion, apply_decision, next_decision, record_and_apply,
  iterate, run_loop,
}
use fraud_ml_platform.Canary.Tests.{
  scores, prediction, config, now, predictions, labels, metrics_of, better, evaluator,
}
use fraud_ml_platform.Canary.Types.{
  rollback, rolled_back, promoted, pr_auc_worse, both, CanaryDecision,
}
use fraud_ml_platform.Database.{hour, Prediction}
use fraud_ml_platform.Registry.Table.{
  Role, champion, challenger, retired, ModelRow, Models, find_model, update_models, role_of,
  versions, count_role,
}
use fraud_ml_platform.Samples.{ints}

abbrev rollout : RolloutConfig ℤ
rollout = record {
  canary = config 1;
  champion_serving_url = "http://champion-model:8080";
  challenger_model_path = "/app/m.onnx";
  challenger_feature_order_path = "/app/o.json";
}

abbrev model : String → Role → ModelRow
model version role = record {
  model_version = version;
  model_path = "";
  onnx_sha256 = version;
  role = role;
  notes = "";
  promoted_at = none;
  retired_at = none;
}

abbrev registry : Models
registry = model "c" champion ∷ model "h" challenger ∷ []

abbrev job : Job ℤ
job = record { models = registry; decisions = []; requests = [] }

abbrev tick : Result String → Tick ℤ
tick reloaded = record {
  now = now;
  fresh_id = "d1";
  predictions = predictions;
  labels = labels;
  router_answer = ok (some "True");
  reload_answer = reloaded;
  decision_saved = true;
  roles_saved = true;
  stopped = false;
}

rounds : Unit {0}
unfolding evaluator next_decision canary_active inactive_decision iterate record_and_apply
    write_decision apply_decision finish_promotion promote_roles rollback_roles update_models
    find_model count_role run_loop
rounds = tt

decides_better : next_decision ints scores rollout (tick (ok "h")) job ≡ ok better
unfolding rounds
decides_better = refl

no_router :
    next_decision ints scores rollout
      (record (tick (ok "h")) { router_answer = raise http_error })
      job
    ≡ ok (inactive_decision now "d1")
unfolding rounds
no_router = refl

registry-IsSound : IsSound registry
unfolding rounds
registry-IsSound = record {
  unique = (((λ e. false≢true ((str_eq_iff "h" "c").1 e)), tt), (tt, tt));
  one = omega arith;
}

iterate-promotes_example :
    ((iterate ints scores rollout (tick (ok "h")) job).requests
      ≡ []
        ++ reload "http://champion-model:8080" "/app/m.onnx" "/app/o.json"
          ∷ set_canary false 0 0
          ∷ [])
    × (count_role champion (iterate ints scores rollout (tick (ok "h")) job).models ≡ 1)
    × ((version : String)
        → role_of version (iterate ints scores rollout (tick (ok "h")) job).models
          ≡ elim (role_of version registry) [
            | none ↦ none
            | some role ↦ some (after_promotion (str_eq version "h") role)
          ])
iterate-promotes_example =
    iterate-promotes ints scores rollout (tick (ok "h")) job better decides_better refl challenger
      refl refl refl registry-IsSound.unique (unfold rounds in refl)

abbrev failing : Tick ℤ
failing = tick (raise http_error)

decides_failing : next_decision ints scores rollout failing job ≡ ok better
unfolding rounds
decides_failing = refl

not_reloaded : failing.reload_answer ≢ ok "h"
not_reloaded = λ e. cc e

iterate-aborted_example :
    ((iterate ints scores rollout failing job).models ≡ registry)
    × ((iterate ints scores rollout failing job).requests
        ≡ [] ++ reload "http://champion-model:8080" "/app/m.onnx" "/app/o.json" ∷ [])
    × ((iterate ints scores rollout failing job).decisions
        ≡ [] ++ row_of ints scores rollout failing better ∷ [])
    × ((row_of ints scores rollout failing better).verdict.outcome ≡ promoted)
iterate-aborted_example =
    iterate-aborted ints scores rollout failing job better decides_failing refl refl not_reloaded

abbrev later : Tick ℤ
later = record (tick (ok "h")) { now = now + 1 }

abbrev again : CanaryDecision ℤ
again = record better { window_start = hour + 1; window_end = now + 1 }

decides_again :
    next_decision ints scores rollout later (iterate ints scores rollout failing job) ≡ ok again
unfolding rounds
decides_again = refl

iterate-aborted_restarts_example : 1 ≤ 1
iterate-aborted_restarts_example =
    iterate-aborted_restarts ints scores rollout failing later job better again decides_failing refl
      refl not_reloaded tt decides_again refl

abbrev worse_predictions : List (Prediction ℤ)
worse_predictions =
    prediction 1 "c" 500 4 (2 * hour - 5) ∷ prediction 2 "h" 400 5 (2 * hour - 4) ∷ []

abbrev worse_tick : Tick ℤ
worse_tick = record (tick (ok "h")) { predictions = worse_predictions }

abbrev worse : CanaryDecision ℤ
worse = record better {
  decision = rollback;
  outcome = rolled_back;
  reason = pr_auc_worse (pos 100) (pos 50);
  metrics = both (metrics_of 500 4) (metrics_of 400 5);
}

-- After a promotion whose last request was lost.
abbrev promoted_registry : Models
promoted_registry = model "c" retired ∷ model "h" champion ∷ []

abbrev promoted_job : Job ℤ
promoted_job = record job { models = promoted_registry }

promoted_registry-IsSound : IsSound promoted_registry
unfolding rounds
promoted_registry-IsSound = record { unique = registry-IsSound.unique; one = omega arith }

decides_worse_promoted : next_decision ints scores rollout worse_tick promoted_job ≡ ok worse
unfolding rounds
decides_worse_promoted = refl

iterate-no_champion_example :
    count_role champion (iterate ints scores rollout worse_tick promoted_job).models ≡ 0
iterate-no_champion_example =
    iterate-no_champion ints scores rollout worse_tick promoted_job worse decides_worse_promoted
      refl refl refl promoted_registry-IsSound (unfold rounds in refl)

run_loop-IsSound_example :
    IsSound (run_loop ints scores rollout (failing ∷ later ∷ worse_tick ∷ []) job).models
run_loop-IsSound_example =
    run_loop-IsSound ints scores rollout (failing ∷ later ∷ worse_tick ∷ []) job registry-IsSound

-- The promotion goes through in the second round; the third one then retires the new champion.
three_rounds :
    versions (run_loop ints scores rollout (failing ∷ later ∷ worse_tick ∷ []) job).models
    ≡ "c" ∷ "h" ∷ []
unfolding rounds
three_rounds = refl
