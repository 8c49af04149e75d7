-- ===== src/Canary/Isolation.antt =====
-- What an evaluation does not look at: labels of the future and predictions outside its query.
use fraud_ml_platform.Shared.{
  ◌-◌, ◌*◌, ◌<◌, String, ◌≡◌, refl, ◌≢◌, ◌⊎◌, inl, inr, false, Option, List, [], ◌∷◌, ◌++◌, arith,
  str_eq_iff, leb, Bool-cases, keep_if, keep_if-append, FloatOps,
}
use fraud_ml_platform.Canary.Evaluator.{evaluate_canary}
use fraud_ml_platform.Canary.Query.{joins, selected, join_labels, fetch_rows}
use fraud_ml_platform.Canary.Types.{Outcome, CanaryConfig, CanaryRow, MetricFunctions}
use fraud_ml_platform.Database.{Time, hour, time_minus, Prediction, Label}

module _ {F : Type 0} where
  module _ (now : Time) (before : List Label) (l : Label) (after : List Label)
      (late : now < l.available_at) where
    joins-future :
        (p : Prediction F)
        → keep_if (joins now p) (before ++ l ∷ after) ≡ keep_if (joins now p) (before ++ after)
    joins-future p =
        let skipped : joins now p l ≡ false = ground arith in
        rw (keep_if-append, keep_if-append, skipped)

    join_labels-future :
        (ps : List (Prediction F))
        → join_labels now (before ++ l ∷ after) ps ≡ join_labels now (before ++ after) ps
    unfolding join_labels
    join_labels-future [] = refl
    join_labels-future (p ∷ ps) = rw (joins-future p, join_labels-future ps)

  -- The prediction is outside the window, or of a version that is not compared.
  abbrev pub IsForeign : Time → Time → String → String → Prediction F → Type 0
  IsForeign start now champ chall p =
      ((p.created_at < start) ⊎ (now < p.created_at))
      ⊎ ((p.model_version ≢ champ) × (p.model_version ≢ chall))

  selected-foreign :
      (start now : Time) (champ chall : String) (p : Prediction F)
      → IsForeign start now champ chall p
      → selected start now champ chall p ≡ false
  selected-foreign start now champ chall p h =
      ground (arith, str_eq_iff p.model_version champ, str_eq_iff p.model_version chall)

module _ {F : Type 0} (fl : FloatOps F) (sk : MetricFunctions F) (config : CanaryConfig F) where
  -- An evaluation does not depend on a label that becomes available after `now`, nor on a prediction
  -- that was made outside its window or by a version that is not compared, wherever they stand in
  -- their tables.
  pub evaluate_canary-unseen :
      (ps ps' : List (Prediction F)) (p : Prediction F) (ls ls' : List Label) (l : Label)
      (table : List (CanaryRow F)) (prior : Option (List Outcome)) (now : Time) (id : String)
      → IsForeign
          (now - config.canary_window_hours * hour)
          now
          config.champion_version
          config.challenger_version
          p
      → now < l.available_at
      → evaluate_canary fl sk config (ps ++ p ∷ ps') (ls ++ l ∷ ls') table prior now id
        ≡ evaluate_canary fl sk config (ps ++ ps') (ls ++ ls') table prior now id
  unfolding evaluate_canary fetch_rows time_minus
  evaluate_canary-unseen ps ps' p ls ls' l table prior now id foreign late =
      let skipped =
        selected-foreign (now - config.canary_window_hours * hour) now config.champion_version
          config.challenger_version p foreign in
      elim (Bool-cases (leb (config.canary_window_hours * hour) now)) [
        | inl fits ↦
            rw fits
              (rw (keep_if-append, keep_if-append, skipped, join_labels-future now ls l ls' late))
        | inr early ↦ rw early
      ]
