-- ===== src/Labels/Tests.antt =====
-- Runs of the label simulator on small tables, and the instances of its theorems.
use fraud_ml_platform.Shared.{
  ℕ, ◌*◌, ◌≤◌, ◌≡◌, refl, Bool, true, false, Option, none, some, List, [], ◌∷◌, ◌++◌, arith, leb,
  ◌==◌, if◌then◌else◌, length, All, ℤ, pos,
}
use fraud_ml_platform.Database.{Time, Prediction, Label}
use fraud_ml_platform.Labels.Inserts.{HasUniqueTransactions}
use fraud_ml_platform.Labels.Joiner.{Round}
use fraud_ml_platform.Labels.Loop.{IsArrival}
use fraud_ml_platform.Labels.Progress.{
  IsServed, simulate_label_arrivals_complete, simulate_label_arrivals-starved,
}
use fraud_ml_platform.Labels.Simulator.{
  insert_label, day, sample, unlabeled, collect, insert_labels, simulate_label_arrivals,
}
use fraud_ml_platform.Labels.Soundness.{simulate_label_arrivals_sound}

abbrev prediction : ℕ → Time → Prediction ℤ
prediction id at = record {
  transaction_id = id;
  model_version = "c";
  fraud_probability = pos 1;
  flagged = false;
  features_hash = "";
  total_ms = pos 1;
  created_at = at;
}

-- Transactions 1 to 3 are known, and only the second is a fraud.
abbrev truth : ℕ → Option Bool
truth i = if i == 0 then none else if leb i 3 then some (i == 2) else none

abbrev two_days : ℕ → Time
two_days i = sample (λ _. 20 * day) 2 i

abbrev label : ℕ → Bool → Time → Label
label i fraud at = record {
  transaction_id = i;
  is_fraud = fraud;
  label_source = "simulator";
  available_at = at;
}

-- Transaction 2 was scored twice, 3 is not due, and 9 is unknown.
abbrev scored : List (Prediction ℤ)
scored =
    prediction 1 0
    ∷ prediction 2 day
    ∷ prediction 2 day
    ∷ prediction 9 0
    ∷ prediction 3 (4 * day)
    ∷ []

abbrev before : List Label
before = label 1 false (2 * day) ∷ []

simulator : Unit {0}
unfolding simulate_label_arrivals collect unlabeled insert_labels insert_label sample
simulator = tt

-- The number that is returned counts the second prediction of a transaction too.
counts_twice :
    simulate_label_arrivals truth two_days 4 (5 * day) scored before
    ≡ (2, label 1 false (2 * day) ∷ label 2 true (3 * day) ∷ [])
unfolding simulator
counts_twice = refl

simulate_label_arrivals_sound_example :
    let (n, labels') = simulate_label_arrivals truth two_days 4 (5 * day) scored before in
    ((new : List Label) × (labels' ≡ before ++ new)
      × (length new ≤ n)
      × All (IsArrival truth two_days (5 * day) scored) new)
    × (n ≤ 4)
    × HasUniqueTransactions labels'
simulate_label_arrivals_sound_example =
    simulate_label_arrivals_sound truth two_days 4 (5 * day) scored before (tt, tt)

simulate_label_arrivals_complete_example :
    All
      (IsServed truth two_days 4
        (5 * day)
        (simulate_label_arrivals truth two_days 4 (5 * day) scored before).1)
      scored
simulate_label_arrivals_complete_example =
    simulate_label_arrivals_complete truth two_days 4 (5 * day) scored before (omega arith)
      (unfold simulator in omega arith)

simulate_label_arrivals-starved_example :
    simulate_label_arrivals truth two_days 1
      (5 * day)
      (prediction 9 0
        ∷ prediction 9 0
        ∷ prediction 9 0
        ∷ prediction 9 0
        ∷ prediction 9 0
        ∷ prediction 2 0
        ∷ [])
      []
    ≡ (0, [])
simulate_label_arrivals-starved_example =
    simulate_label_arrivals-starved truth two_days 1 (5 * day)
      (prediction 9 0
        ∷ prediction 9 0
        ∷ prediction 9 0
        ∷ prediction 9 0
        ∷ prediction 9 0
        ∷ prediction 2 0
        ∷ [])
      [] (refl, (refl, (refl, (refl, (refl, tt)))))

-- Transaction 3 arrives in the second round.
abbrev rounds : List (Round ℤ)
rounds =
    record { now = 5 * day; predictions = scored }
    ∷ record { now = 6 * day; predictions = scored }
    ∷ []
