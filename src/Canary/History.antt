-- ===== src/Canary/History.antt =====
-- How a promotion depends on the recorded outcomes.
use Prim.Native.Nat.{min}
use mathlib.Core.List.{Perm}
use mathlib.Core.List.Perm
use fraud_ml_platform.Shared.{
  ℕ, zero, suc, ◌+◌, ◌-◌, ◌≤◌, String, ◌≡◌, refl, inl, inr, none, List, [], ◌∷◌, map, arith, ltb,
  Bool-cases, length, take, keep_if, All, length-map, length-take, All-map, take-take, take-map,
  FloatOps, ok,
}
use fraud_ml_platform.Canary.Evaluator.{evaluate_canary}
use fraud_ml_platform.Canary.Streak.{
  count_improving, insert_newest, newest_first, of_pair, outcome_of, recent_outcomes,
  count_consecutive_improvements,
}
use fraud_ml_platform.Canary.Types.{
  promote, Outcome, improving, CanaryDecision, CanaryConfig, CanaryRow, MetricFunctions,
}
use fraud_ml_platform.Canary.Verdicts.{promotes_after}
use fraud_ml_platform.Database.{Time, Prediction, Label}

count_improving-take :
    (n : ℕ) (os : List Outcome)
    → n ≤ count_improving os
    → All (λ o. o ≡ improving) (take n os) × (n ≤ length os)
unfolding count_improving
count_improving-take zero os h = (tt, omega arith)
count_improving-take (suc n) [] h = absurd (omega arith)
count_improving-take (suc n) (improving ∷ os) h =
    let (all, short) = count_improving-take n os (omega arith) in ((refl, all), omega arith)
count_improving-take (suc n) (o ∷ os) h = absurd (omega arith)

module _ {F : Type 0} where
  -- The sort of the query only reorders.
  insert_newest-perm :
      (r : CanaryRow F) (rs : List (CanaryRow F)) → Perm (insert_newest r rs) (r ∷ rs)
  unfolding insert_newest
  insert_newest-perm r [] = Perm.rfl
  insert_newest-perm r (x ∷ xs) = elim (Bool-cases (ltb r.created_at x.created_at)) [
    | inl older ↦ rw older (Perm.trans (Perm.cons x (insert_newest-perm r xs)) (Perm.swap r x xs))
    | inr newer ↦ rw newer Perm.rfl
  ]

  pub newest_first-perm : (rs : List (CanaryRow F)) → Perm (newest_first rs) rs
  unfolding newest_first
  newest_first-perm [] = Perm.rfl
  newest_first-perm (r ∷ rs) =
      Perm.trans (insert_newest-perm r (newest_first rs)) (Perm.cons r (newest_first-perm rs))

  -- Each row is at least as new as those behind it.
  abbrev pub IsNewestFirst : List (CanaryRow F) → Type 0
  IsNewestFirst [] = Unit
  IsNewestFirst (r ∷ rs) = All (λ x. x.created_at ≤ r.created_at) rs × IsNewestFirst rs

  All-insert_newest :
      {t : Time} (r : CanaryRow F) (rs : List (CanaryRow F))
      → r.created_at ≤ t
      → All (λ x. x.created_at ≤ t) rs
      → All (λ x. x.created_at ≤ t) (insert_newest r rs)
  unfolding insert_newest
  All-insert_newest r [] h all = (h, tt)
  All-insert_newest r (x ∷ xs) h all = ground (arith, All-insert_newest r xs h all.1)

  All-le_trans :
      {s t : Time} (rs : List (CanaryRow F))
      → s ≤ t
      → All (λ x. x.created_at ≤ s) rs
      → All (λ x. x.created_at ≤ t) rs
  All-le_trans [] h all = tt
  All-le_trans (r ∷ rs) h all = (omega arith, All-le_trans rs h all.1)

  insert_newest-IsNewestFirst :
      (r : CanaryRow F) (rs : List (CanaryRow F))
      → IsNewestFirst rs
      → IsNewestFirst (insert_newest r rs)
  unfolding insert_newest
  insert_newest-IsNewestFirst r [] h = (tt, tt)
  insert_newest-IsNewestFirst r (x ∷ xs) h = elim (Bool-cases (ltb r.created_at x.created_at)) [
    | inl older ↦
        rw older
          (All-insert_newest r xs (ground (arith, older)) h.0, insert_newest-IsNewestFirst r xs h.1)
    | inr newer ↦
        let le : x.created_at ≤ r.created_at = ground (arith, newer) in
        rw newer ((le, All-le_trans xs le h.0), h)
  ]

  newest_first-IsNewestFirst : (rs : List (CanaryRow F)) → IsNewestFirst (newest_first rs)
  unfolding newest_first
  newest_first-IsNewestFirst [] = tt
  newest_first-IsNewestFirst (r ∷ rs) =
      insert_newest-IsNewestFirst r (newest_first rs) (newest_first-IsNewestFirst rs)

  -- The query's order returns the rows of the table, each once, the newest first.
  pub newest_first_lem :
      (rs : List (CanaryRow F)) → Perm (newest_first rs) rs × IsNewestFirst (newest_first rs)
  newest_first_lem rs = (newest_first-perm rs, newest_first-IsNewestFirst rs)

module _ {F : Type 0} where
  abbrev pub history : String → String → List (CanaryRow F) → List (CanaryRow F)
  history champ chall table = newest_first (keep_if (of_pair champ chall) table)

  count-recent :
      (n : ℕ) (champ chall : String) (table : List (CanaryRow F))
      → n ≤ count_improving (recent_outcomes champ chall table)
      → All (λ r. outcome_of r ≡ improving) (take n (history champ chall table))
        × (n ≤ 10)
        × (n ≤ length (history champ chall table))
  unfolding recent_outcomes
  count-recent n champ chall table h =
      let rows = history champ chall table in
      let (all, short) = count_improving-take n (map outcome_of (take 10 rows)) h in
      let bound : n ≤ min 10 (length rows) =
        omega (arith, short, length-map outcome_of (take 10 rows), length-take 10 rows) in
      (
        All-map (λ o. o ≡ improving) outcome_of (take n rows)
            (rw (take-map outcome_of n (take 10 rows), take-take n 10 rows (omega arith)) at all),
        omega arith,
        omega arith,
      )

module _ {F : Type 0} (fl : FloatOps F) (sk : MetricFunctions F) (config : CanaryConfig F) where
  -- A promotion that is decided from the table needs that the newest rows recorded for this pair of
  -- versions, one fewer than the required runs, are all improving. So it needs that many rows, and
  -- it cannot happen where more than eleven runs are required.
  pub evaluate_canary-promote_history :
      (predictions : List (Prediction F)) (labels : List Label) (table : List (CanaryRow F))
      (now : Time) (id : String) {d : CanaryDecision F}
      → evaluate_canary fl sk config predictions labels table none now id ≡ ok d
      → d.decision ≡ promote
      → All
          (λ r. outcome_of r ≡ improving)
          (take
            (config.canary_required_consecutive_runs - 1)
            (history config.champion_version config.challenger_version table))
        × (config.canary_required_consecutive_runs
            ≤ length (history config.champion_version config.challenger_version table) + 1)
        × (config.canary_required_consecutive_runs ≤ 11)
  unfolding count_consecutive_improvements
  evaluate_canary-promote_history predictions labels table now id returned e =
      let (_, runs) = promotes_after fl sk config predictions labels table none now id returned e in
      let (all, most, rows) =
        count-recent (config.canary_required_consecutive_runs - 1) config.champion_version
          config.challenger_version table (omega arith) in
      (all, omega arith, omega arith)
