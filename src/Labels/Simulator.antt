-- ===== src/Labels/Simulator.antt =====
-- monitoring/labels/simulator.py. The ground truth is a dict, of which only `in` and `[]` are used,
-- and a delay is a number of microseconds.
use Prim.Native.Nat.{min}
use fraud_ml_platform.Shared.{
  ℕ, ◌+◌, ◌*◌, Bool, not, Option, none, some, List, [], ◌∷◌, ◌++◌, leb, ◌==◌, if◌then◌else◌, length,
  take, keep_if, any_of,
}
use fraud_ml_platform.Database.{Time, Prediction, Label}

abbrev pub day : Time
day = 86400000000

-- `sample`: a draw of the seeded generator, cut off at `max_days`.
unfoldable pub sample : (ℕ → Time) → ℕ → ℕ → Time
sample lognormal max_days transaction_id = min (lognormal transaction_id) (max_days * day)

abbrev pub has_label : List Label → ℕ → Bool
has_label labels transaction_id = any_of (λ l. l.transaction_id == transaction_id) labels

module _ {F : Type 0} where
  -- The LEFT JOIN with its WHERE and LIMIT.
  unfoldable pub unlabeled : ℕ → List (Prediction F) → List Label → List (Prediction F)
  unlabeled limit predictions labels =
      take limit (keep_if (λ p. not (has_label labels p.transaction_id)) predictions)

abbrev pub arrival : {F : Type 0} → (ℕ → Time) → Prediction F → Bool → Label
arrival delay p is_fraud = record {
  transaction_id = p.transaction_id;
  is_fraud = is_fraud;
  label_source = "simulator";
  available_at = p.created_at + delay p.transaction_id;
}

abbrev pub push_if_due : Time → Label → List Label → List Label
push_if_due now l to_insert = if leb l.available_at now then to_insert ++ l ∷ [] else to_insert

module _ {F : Type 0} (ground_truth : ℕ → Option Bool) (delay : ℕ → Time) (limit : ℕ)
    (now : Time) where
  -- The `for` loop. `continue` passes over the test that breaks.
  unfoldable pub collect : List (Prediction F) → List Label → List Label
  collect [] to_insert = to_insert
  collect (p ∷ rows) to_insert = elim (ground_truth p.transaction_id) [
    | none ↦ collect rows to_insert
    | some is_fraud ↦
        let to_insert' = push_if_due now (arrival delay p is_fraud) to_insert in
        let rest = collect rows to_insert' in
        if leb limit (length to_insert') then to_insert' else rest
  ]

-- INSERT .. ON CONFLICT (transaction_id) DO NOTHING
unfoldable pub insert_label : List Label → Label → List Label
insert_label labels l = if has_label labels l.transaction_id then labels else labels ++ l ∷ []

unfoldable pub insert_labels : List Label → List Label → List Label
insert_labels labels [] = labels
insert_labels labels (l ∷ ls) = insert_labels (insert_label labels l) ls

module _ {F : Type 0} (ground_truth : ℕ → Option Bool) (delay : ℕ → Time) where
  -- The returned number and the table labels. The early returns on no rows are those of the loops.
  unfoldable pub simulate_label_arrivals :
      ℕ → Time → List (Prediction F) → List Label → ℕ × List Label
  simulate_label_arrivals max_inserts_per_run now predictions labels =
      let rows = unlabeled (max_inserts_per_run * 5) predictions labels in
      let to_insert = collect ground_truth delay max_inserts_per_run now rows [] in
      (length to_insert, insert_labels labels to_insert)
