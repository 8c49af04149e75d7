-- ===== src/Canary/Restart.antt =====
-- An interrupted promotion starts the count of improving runs again.
use fraud_ml_platform.Shared.{
  ℕ, zero, suc, ◌-◌, ◌≤◌, ◌<◌, String, ◌≡◌, refl, ap, ◌∙◌, ◌≢◌, ◌⊎◌, inl, inr, true, ◌&&◌, List, [],
  ◌∷◌, ◌++◌, arith, str_eq, str_eq_iff, lt→ltb, take, keep_if, All, keep_if-append, All-keep_if_of,
  FloatOps, ok,
}
use fraud_ml_platform.Canary.Audit.{row_of, next_decision-promote}
use fraud_ml_platform.Canary.Effects.{iterate-aborted}
use fraud_ml_platform.Canary.History.{history, evaluate_canary-promote_history}
use fraud_ml_platform.Canary.Rollout.{Job, RolloutConfig, Tick, next_decision, iterate}
use fraud_ml_platform.Canary.Streak.{newest_first, of_pair, outcome_of}
use fraud_ml_platform.Canary.Types.{promote, improving, CanaryDecision, CanaryRow, MetricFunctions}

module _ {F : Type 0} where
  abbrev IsOlder : CanaryRow F → CanaryRow F → Type 0
  IsOlder r x = x.created_at < r.created_at

  newest_first-snoc :
      (r : CanaryRow F) (rows : List (CanaryRow F))
      → All (IsOlder r) rows
      → newest_first (rows ++ r ∷ []) ≡ r ∷ newest_first rows
  unfolding newest_first
  newest_first-snoc r [] h = refl
  newest_first-snoc r (x ∷ xs) h =
      let older = lt→ltb x.created_at r.created_at h.0 in
      rw (newest_first-snoc r xs h.1) (ground (arith, older))

  -- The newest row of the pair is the first of its history.
  history-snoc :
      (champ chall : String) (r : CanaryRow F) (rows : List (CanaryRow F))
      → All (IsOlder r) rows
      → of_pair champ chall r ≡ true
      → history champ chall (rows ++ r ∷ []) ≡ r ∷ history champ chall rows
  history-snoc champ chall r rows h mine =
      let kept = keep_if (of_pair champ chall) rows in
      let split : keep_if (of_pair champ chall) (rows ++ r ∷ []) ≡ kept ++ r ∷ [] =
        keep_if-append (of_pair champ chall) rows (r ∷ [])
        ∙ ap (λ (l : List (CanaryRow F)). kept ++ l) (ground (arith, mine)) in
      ap newest_first split ∙ newest_first-snoc r kept (All-keep_if_of (IsOlder r) _ rows h)

  All-take_first :
      (P : CanaryRow F → Type 0) (n : ℕ) (r : CanaryRow F) (rows : List (CanaryRow F))
      → All P (take n (r ∷ rows))
      → (n ≡ 0) ⊎ P r
  All-take_first P zero r rows h = inl refl
  All-take_first P (suc n) r rows h = inr h.0

own_pair : (champ chall : String) → (str_eq champ champ && str_eq chall chall) ≡ true
own_pair champ chall = ground (arith, str_eq_iff champ champ, str_eq_iff chall chall)

module _ {F : Type 0} (fl : FloatOps F) (sk : MetricFunctions F) (cfg : RolloutConfig F) where
  -- After a round that decided to promote and was aborted, the next round cannot promote if more
  -- than one run is required, provided that its row is newer than all rows before it: the recorded
  -- outcome promoted ends the run of improving outcomes.
  pub iterate-aborted_restarts :
      (t next : Tick F) (job : Job F) (d d' : CanaryDecision F)
      → next_decision fl sk cfg t job ≡ ok d
      → t.decision_saved ≡ true
      → d.decision ≡ promote
      → t.reload_answer ≢ ok cfg.canary.challenger_version
      → All (λ r. r.created_at < t.now) job.decisions
      → next_decision fl sk cfg next (iterate fl sk cfg t job) ≡ ok d'
      → d'.decision ≡ promote
      → cfg.canary.canary_required_consecutive_runs ≤ 1
  iterate-aborted_restarts t next job d d' decided saved e failed older decided' e' =
      let canary = cfg.canary in
      let before = history canary.champion_version canary.challenger_version job.decisions in
      let row = row_of fl sk cfg t d in
      let (_, _, rows, recorded) = iterate-aborted fl sk cfg t job d decided saved e failed in
      let asked' = next_decision-promote fl sk cfg next (iterate fl sk cfg t job) decided' e' in
      let (all, _, _) =
        evaluate_canary-promote_history fl sk canary next.predictions next.labels
          (iterate fl sk cfg t job).decisions next.now next.fresh_id asked' e' in
      let newest : history canary.champion_version canary.challenger_version
            (iterate fl sk cfg t job).decisions
          ≡ row ∷ before =
        ap (history canary.champion_version canary.challenger_version) rows
        ∙ history-snoc canary.champion_version canary.challenger_version row job.decisions older
            (own_pair canary.champion_version canary.challenger_version) in
      elim (All-take_first (λ r. outcome_of r ≡ improving)
        (canary.canary_required_consecutive_runs - 1) row before (rw newest at all)) [
          | inl few ↦ omega arith
          | inr better ↦ ground (arith, recorded, e, better)
        ]
