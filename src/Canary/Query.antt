-- ===== src/Canary/Query.antt =====
-- monitoring/canary/evaluator.py: the query for labelled predictions, over the two tables.
use fraud_ml_platform.Shared.{
  String, Bool, ◌&&◌, ◌||◌, List, [], ◌∷◌, ◌++◌, map, str_eq, leb, ◌==◌, keep_if,
}
use fraud_ml_platform.Database.{Time, Prediction, Label}

-- A row of the join of predictions and labels.
pub record LabeledRow (F : Type 0) : Type 0 where
  pub model_version : String
  pub fraud_probability : F
  pub flagged : Bool
  pub is_fraud : Bool
  pub total_ms : F

module _ {F : Type 0} where
  abbrev pub labeled_row : Prediction F → Label → LabeledRow F
  labeled_row p l = record {
    model_version = p.model_version;
    fraud_probability = p.fraud_probability;
    flagged = p.flagged;
    is_fraud = l.is_fraud;
    total_ms = p.total_ms;
  }

  -- `l.transaction_id = p.transaction_id AND l.available_at <= now`
  abbrev pub joins : Time → Prediction F → Label → Bool
  joins now p l = l.transaction_id == p.transaction_id && leb l.available_at now

  -- `p.created_at BETWEEN .. AND .. AND p.model_version IN (..)`
  abbrev pub selected : Time → Time → String → String → Prediction F → Bool
  selected start end champ chall p =
      leb start p.created_at
      && leb p.created_at end
      && (str_eq p.model_version champ || str_eq p.model_version chall)

  unfoldable pub join_labels : Time → List Label → List (Prediction F) → List (LabeledRow F)
  join_labels now labels [] = []
  join_labels now labels (p ∷ ps) =
      map (labeled_row p) (keep_if (joins now p) labels) ++ join_labels now labels ps

  unfoldable pub fetch_rows :
      Time → Time → String → String → List (Prediction F) → List Label → List (LabeledRow F)
  fetch_rows start now champ chall predictions labels =
      join_labels now labels (keep_if (selected start now champ chall) predictions)

  abbrev pub rows_of : String → List (LabeledRow F) → List (LabeledRow F)
  rows_of version = keep_if (λ r. str_eq r.model_version version)
