-- ===== src/Labels/Soundness.antt =====
-- Every label that a run inserts is true, due, and new.
use fraud_ml_platform.Shared.{
  ℕ, zero, suc, ◌*◌, ◌≤◌, ◌≡◌, Bool, Option, List, [], ◌++◌, Memᴰ, arith, length, All,
  All-keep_if_of, All-take, All-Memᴰ,
}
use fraud_ml_platform.Database.{Time, Prediction, Label}
use fraud_ml_platform.Labels.Inserts.{
  HasUniqueTransactions, insert_labels-HasUniqueTransactions, insert_labels-extends,
}
use fraud_ml_platform.Labels.Loop.{IsArrival, collect-IsArrival, length-collect}
use fraud_ml_platform.Labels.Simulator.{unlabeled, collect, simulate_label_arrivals}

module _ {F : Type 0} where
  unlabeled-Memᴰ :
      (n : ℕ) (predictions : List (Prediction F)) (labels : List Label)
      → All (λ p. Memᴰ p predictions) (unlabeled n predictions labels)
  unfolding unlabeled
  unlabeled-Memᴰ n predictions labels =
      All-take (λ p. Memᴰ p predictions) n _
        (All-keep_if_of (λ p. Memᴰ p predictions) _ predictions (All-Memᴰ predictions))

  length-to_insert :
      (ground_truth : ℕ → Option Bool) (delay : ℕ → Time) (limit : ℕ) (now : Time)
      (predictions : List (Prediction F)) (labels : List Label)
      → length (collect ground_truth delay limit now (unlabeled (limit * 5) predictions labels) [])
        ≤ limit
  length-to_insert ground_truth delay zero now predictions labels =
      unfold unlabeled collect in omega arith
  length-to_insert ground_truth delay (suc limit) now predictions labels =
      length-collect ground_truth delay (suc limit) now _ [] (omega arith)

  -- A run only adds labels behind those that are there, at most as many as it reports, which is at
  -- most `max_inserts_per_run`. Each new label is due, agrees with the ground truth, and comes from a
  -- prediction of its transaction with that transaction's delay. No transaction gets two labels.
  pub simulate_label_arrivals_sound :
      (ground_truth : ℕ → Option Bool) (delay : ℕ → Time) (limit : ℕ) (now : Time)
      (predictions : List (Prediction F)) (labels : List Label)
      → HasUniqueTransactions labels
      → let (n, labels') =
          simulate_label_arrivals ground_truth delay limit now predictions labels in
        ((new : List Label) × (labels' ≡ labels ++ new)
          × (length new ≤ n)
          × All (IsArrival ground_truth delay now predictions) new)
        × (n ≤ limit)
        × HasUniqueTransactions labels'
  unfolding simulate_label_arrivals
  simulate_label_arrivals_sound ground_truth delay limit now predictions labels u =
      let rows = unlabeled (limit * 5) predictions labels in
      let to_insert = collect ground_truth delay limit now rows [] in
      let arrivals : All (IsArrival ground_truth delay now predictions) to_insert =
        collect-IsArrival ground_truth delay limit now predictions rows []
          (unlabeled-Memᴰ (limit * 5) predictions labels) tt in
      (
        insert_labels-extends (IsArrival ground_truth delay now predictions) labels to_insert
            arrivals,
        length-to_insert ground_truth delay limit now predictions labels,
        insert_labels-HasUniqueTransactions labels to_insert u,
      )
