-- ===== src/Tuning/Pruning.antt =====
-- What a trial reports, and how it ends.
use mathlib.Core.List.{append-nil, append_assoc}
use fraud_ml_platform.Shared.{
  ℕ, ◌+◌, ◌*◌, ◌≡◌, refl, sym, ap, ◌∙◌, subst, inl, inr, Bool, true, false, List, [], ◌∷◌, ◌++◌,
  map, Bool-cases, All, Result, ok,
}
use fraud_ml_platform.Training.Purging.{IsPurged, split-IsPurged}
use fraud_ml_platform.Training.Splits.{Event, fold, warn_dropped, warn_all_dropped, split}
use fraud_ml_platform.Tuning.Objective.{TrialEnd, returns, prunes, score_folds, fold_objective}

-- The folds that are yielded.
abbrev pub folds_of : List Event → List (List ℕ × List ℕ)
folds_of [] = []
folds_of (fold tr_idx val_idx ∷ events) = (tr_idx, val_idx) ∷ folds_of events
folds_of (warn_dropped i ∷ events) = folds_of events
folds_of (warn_all_dropped ∷ events) = folds_of events

module _ {F : Type 0} (mean : List F → F) (score : List ℕ → List ℕ → F)
    (should_prune : List (F × ℕ) → Bool) where
  -- The reports of a trial that scores these folds all: behind the given scores, the mean so far with
  -- the number of the fold.
  abbrev pub all_reports : ℕ → List F → List (List ℕ × List ℕ) → List (F × ℕ)
  all_reports n scores [] = []
  all_reports n scores ((tr_idx, val_idx) ∷ folds) =
      let scores' = scores ++ score tr_idx val_idx ∷ [] in
      (mean scores', n) ∷ all_reports (n + 1) scores' folds

  -- The pruner has let go on after each shorter row of the reports.
  abbrev pub IsPassed : List (F × ℕ) → List (F × ℕ) → Type 0
  IsPassed before [] = Unit
  IsPassed before (r ∷ rs) =
      (should_prune (before ++ r ∷ []) ≡ false) × IsPassed (before ++ r ∷ []) rs

  -- Either all folds are scored, and the value is the mean, or the reports stop at the first of the
  -- rows of reports that the pruner stops.
  pub data IsTrial (folds : List (List ℕ × List ℕ)) (before : List (F × ℕ)) (n : ℕ)
      (scores : List F) : TrialEnd F × List (F × ℕ) → Type 0 where
    is_whole :
        IsPassed before (all_reports n scores folds)
        → IsTrial folds before n scores (
          returns (mean (scores ++ map (λ f. score f.0 f.1) folds)),
          before ++ all_reports n scores folds,
        )
    is_pruned :
        (passed : List (F × ℕ)) (last : F × ℕ) (rest : List (F × ℕ))
        → all_reports n scores folds ≡ passed ++ last ∷ rest
        → IsPassed before passed
        → should_prune (before ++ (passed ++ last ∷ [])) ≡ true
        → IsTrial folds before n scores (prunes, before ++ (passed ++ last ∷ []))

  IsTrial-more :
      (tr_idx val_idx : List ℕ) (folds : List (List ℕ × List ℕ)) (before : List (F × ℕ)) (n : ℕ)
      (scores : List F) (out : TrialEnd F × List (F × ℕ))
      → let scores' = scores ++ score tr_idx val_idx ∷ [] in
        should_prune (before ++ (mean scores', n) ∷ []) ≡ false
        → IsTrial folds (before ++ (mean scores', n) ∷ []) (n + 1) scores' out
        → IsTrial ((tr_idx, val_idx) ∷ folds) before n scores out
  IsTrial-more tr_idx val_idx folds before n scores out go_on (is_whole passed) =
      let s = score tr_idx val_idx in
      let r : F × ℕ = (mean (scores ++ s ∷ []), n) in
      let later = all_reports (n + 1) (scores ++ s ∷ []) folds in
      let values = map (λ f. score f.0 f.1) folds in
      subst (IsTrial ((tr_idx, val_idx) ∷ folds) before n scores)
        (ap (λ l. (returns (mean l), before ++ r ∷ later))
            (sym (append_assoc scores (s ∷ []) values))
          ∙ ap (λ l. (returns (mean (scores ++ s ∷ [] ++ values)), l))
              (sym (append_assoc before (r ∷ []) later)))
        (is_whole (go_on, passed))
  IsTrial-more tr_idx val_idx folds before n scores out go_on
        (is_pruned passed last rest parts free stop) =
      let r : F × ℕ = (mean (scores ++ score tr_idx val_idx ∷ []), n) in
      let same = append_assoc before (r ∷ []) (passed ++ last ∷ []) in
      subst (IsTrial ((tr_idx, val_idx) ∷ folds) before n scores) (ap (λ l. (prunes, l)) (sym same))
        (is_pruned (r ∷ passed) last rest (ap (λ l. r ∷ l) parts) (go_on, free)
          (ap should_prune (sym same) ∙ stop))

  score_folds-IsTrial :
      (n : ℕ) (scores : List F) (reports : List (F × ℕ)) (events : List Event)
      → IsTrial
          (folds_of events)
          reports
          n
          scores
          (score_folds mean score should_prune n scores reports events)
  unfolding score_folds
  score_folds-IsTrial n scores reports [] =
      subst (IsTrial [] reports n scores)
        (ap (λ l. (returns (mean l), reports ++ [])) (append-nil scores)
          ∙ ap (λ l. (returns (mean scores), l)) (append-nil reports))
        (is_whole tt)
  score_folds-IsTrial n scores reports (fold tr_idx val_idx ∷ events) =
      let scores' = scores ++ score tr_idx val_idx ∷ [] in
      let r : F × ℕ = (mean scores', n) in
      let reports' = reports ++ r ∷ [] in
      let h = score_folds-IsTrial (n + 1) scores' reports' events in
      elim (Bool-cases (should_prune reports')) [
        | inl stop ↦
            rw stop (is_pruned [] r (all_reports (n + 1) scores' (folds_of events)) refl tt stop)
        | inr go_on ↦
            rw go_on (IsTrial-more tr_idx val_idx (folds_of events) reports n scores _ go_on h)
      ]
  score_folds-IsTrial n scores reports (warn_dropped i ∷ events) =
      score_folds-IsTrial n scores reports events
  score_folds-IsTrial n scores reports (warn_all_dropped ∷ events) =
      score_folds-IsTrial n scores reports events

-- If the folds can be made, a trial is scored on the folds that are yielded, all of them purged, one
-- after the other, each report the mean of the scores so far with the fold's number from 0 on: it
-- either goes through all of them, the pruner never stopping it, and returns the mean of all scores,
-- or it is pruned at the first row of reports that the pruner stops.
pub fold_objective-IsTrial :
    {F : Type 0} (mean : List F → F) (score : List ℕ → List ℕ → F)
    (should_prune : List (F × ℕ) → Bool)
    (time_series_split : ℕ → ℕ → Result (List (List ℕ × List ℕ))) (n_splits : ℕ) (dt : List ℕ)
    (events : List Event)
    → split time_series_split n_splits 1 dt ≡ ok events
    → All (IsPurged dt (1 * 86400)) events
      × IsTrial mean score should_prune
          (folds_of events)
          []
          0
          []
          (fold_objective mean score should_prune time_series_split n_splits dt)
unfolding fold_objective
fold_objective-IsTrial mean score should_prune time_series_split n_splits dt events h = (
  split-IsPurged time_series_split n_splits 1 dt events h,
  rw (fold_objective, h) (score_folds-IsTrial mean score should_prune 0 [] [] events),
)
