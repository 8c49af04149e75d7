-- ===== src/Labels/Joiner.antt =====
-- monitoring/scripts/run_label_joiner.py: the ground truth and the loop around the simulator.
-- `dict(zip(ids, labels))`: of two rows with one id, the later one counts.
use mathlib.Core.List.{append-nil, append_assoc}
use fraud_ml_platform.Shared.{
  ℕ, String, ◌≡◌, refl, sym, ap, ◌∙◌, Bool, not, Option, none, some, List, [], ◌∷◌, ◌++◌, Memᴰ,
  str_eq, ◌==◌, if◌then◌else◌, All, All-append, All-imp, runtime_error, Result, ok, ensure, ◌>>=◌,
  ◌>>◌,
}
use fraud_ml_platform.Database.{Time, Prediction, Label}
use fraud_ml_platform.Labels.Inserts.{HasUniqueTransactions}
use fraud_ml_platform.Labels.Loop.{IsArrival}
use fraud_ml_platform.Labels.Simulator.{sample, simulate_label_arrivals}
use fraud_ml_platform.Labels.Soundness.{simulate_label_arrivals_sound}

unfoldable pub load_ground_truth : List (ℕ × Bool) → ℕ → Option Bool
load_ground_truth [] transaction_id = none
load_ground_truth ((row_id, is_fraud) ∷ rows) transaction_id =
    elim (load_ground_truth rows transaction_id) [
      | some later ↦ some later
      | none ↦ if row_id == transaction_id then some is_fraud else none
    ]

-- What one round of the loop finds: its time and the table of predictions.
pub record Round (F : Type 0) : Type 0 where
  pub now : Time
  pub predictions : List (Prediction F)

module _ {F : Type 0} (ground_truth : ℕ → Option Bool) (delay : ℕ → Time) (limit : ℕ) where
  unfoldable pub joiner_rounds : List (Round F) → List Label → List Label
  joiner_rounds [] labels = labels
  joiner_rounds (r ∷ rounds) labels =
      let (_, next) = simulate_label_arrivals ground_truth delay limit r.now r.predictions labels in
      joiner_rounds rounds next

-- The path and the table that is read from it, a parameter; the draw of the delays is another.
unfoldable pub main :
    {F : Type 0}
    → (String → Result (List (ℕ × Bool)))
    → (ℕ → Time)
    → String
    → ℕ
    → ℕ
    → List (Round F)
    → List Label
    → Result (List Label)
main read_table lognormal ground_truth_path max_days limit rounds labels =
    ensure (not (str_eq ground_truth_path "")) runtime_error
    >> (read_table ground_truth_path >>= λ rows.
        ok (joiner_rounds (load_ground_truth rows) (sample lognormal max_days) limit rounds labels))

module _ {F : Type 0} (ground_truth : ℕ → Option Bool) (delay : ℕ → Time) (limit : ℕ) where
  -- A label that one of the rounds inserts.
  abbrev pub IsOfRound : List (Round F) → Label → Type 0
  IsOfRound rounds l =
      (r : Round F) × Memᴰ r rounds × IsArrival ground_truth delay r.now r.predictions l

  -- The rounds of the joiner only add labels behind those that are there, each one an arrival of one
  -- of the rounds, and no transaction gets two labels, however often it is seen.
  pub joiner_rounds_sound :
      (rounds : List (Round F)) (labels : List Label)
      → HasUniqueTransactions labels
      → ((new : List Label) × (joiner_rounds ground_truth delay limit rounds labels ≡ labels ++ new)
          × All (IsOfRound rounds) new)
        × HasUniqueTransactions (joiner_rounds ground_truth delay limit rounds labels)
  unfolding joiner_rounds
  joiner_rounds_sound [] labels u = (([], sym (append-nil labels), tt), u)
  joiner_rounds_sound (r ∷ rounds) labels u =
      let next = (simulate_label_arrivals ground_truth delay limit r.now r.predictions labels).1 in
      let ((new, e, _, arrivals), _, u') =
        simulate_label_arrivals_sound ground_truth delay limit r.now r.predictions labels u in
      let ((more, e', later), u'') = joiner_rounds_sound rounds next u' in
      (
        (
          new ++ more,
          e' ∙ ap (λ l. l ++ more) e ∙ append_assoc labels new more,
          All-append (IsOfRound (r ∷ rounds)) new more
              (All-imp (IsArrival ground_truth delay r.now r.predictions) (IsOfRound (r ∷ rounds))
                (λ l a. (r, Memᴰ.head refl, a)) new arrivals)
              (All-imp (IsOfRound rounds) (IsOfRound (r ∷ rounds))
                (λ l (q, m, a). (q, Memᴰ.tail m, a)) more later),
        ),
        u'',
      )
