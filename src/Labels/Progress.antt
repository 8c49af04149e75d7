-- ===== src/Labels/Progress.antt =====
-- What a run is bound to insert, and when it inserts nothing.
use fraud_ml_platform.Shared.{
  ℕ, ◌+◌, ◌*◌, ◌≤◌, ◌<◌, ◌≡◌, refl, sym, ap, subst, inl, inr, Bool, true, not, ◌||◌, Option, none,
  some, List, [], ◌∷◌, ◌++◌, arith, ◌==◌, ==_iff, length, take, keep_if, All, All-imp,
  All_of_keep_if, take-all,
}
use fraud_ml_platform.Database.{Time, Prediction, Label}
use fraud_ml_platform.Labels.Loop.{collect-cases}
use fraud_ml_platform.Labels.Simulator.{
  insert_label, has_label, unlabeled, arrival, push_if_due, collect, insert_labels,
  simulate_label_arrivals,
}

pub has_label-append_left :
    (xs ys : List Label) (i : ℕ) → has_label xs i ≡ true → has_label (xs ++ ys) i ≡ true
has_label-append_left [] ys i h = cc
has_label-append_left (x ∷ xs) ys i h = ground (arith, has_label-append_left xs ys i)

has_label-append_right :
    (xs ys : List Label) (i : ℕ) → has_label ys i ≡ true → has_label (xs ++ ys) i ≡ true
has_label-append_right [] ys i h = h
has_label-append_right (x ∷ xs) ys i h = ground (arith, has_label-append_right xs ys i)

has_label-insert_label :
    (labels : List Label) (l : Label) (i : ℕ)
    → has_label labels i || (l.transaction_id == i) ≡ true
    → has_label (insert_label labels l) i ≡ true
unfolding insert_label
has_label-insert_label labels l i h = ground (
  arith,
  has_label-append_left labels (l ∷ []) i,
  has_label-append_right labels (l ∷ []) i,
  ==_iff l.transaction_id i,
)

pub has_label-insert_labels :
    (labels ls : List Label) (i : ℕ)
    → has_label labels i || has_label ls i ≡ true
    → has_label (insert_labels labels ls) i ≡ true
unfolding insert_labels
has_label-insert_labels labels [] i h = ground arith
has_label-insert_labels labels (l ∷ ls) i h =
    has_label-insert_labels (insert_label labels l) ls i
      (ground (arith, has_label-insert_label labels l i))

-- The ground truth knows the transaction, and its label is due.
abbrev pub IsDue : {F : Type 0} → (ℕ → Option Bool) → (ℕ → Time) → Time → Prediction F → Type 0
IsDue ground_truth delay now p =
    (b : Bool) × (ground_truth p.transaction_id ≡ some b)
    × (p.created_at + delay p.transaction_id ≤ now)

module _ {F : Type 0} (ground_truth : ℕ → Option Bool) (delay : ℕ → Time) (limit : ℕ)
    (now : Time) where
  has_label-push_if_due :
      (p : Prediction F) (b : Bool) (acc : List Label) (i : ℕ)
      → has_label acc i ≡ true
      → has_label (push_if_due now (arrival delay p b) acc) i ≡ true
  has_label-push_if_due p b acc i h =
      ground (arith, has_label-append_left acc (arrival delay p b ∷ []) i)

  pushed_if_due :
      (p : Prediction F) (b : Bool) (acc : List Label)
      → p.created_at + delay p.transaction_id ≤ now
      → has_label (push_if_due now (arrival delay p b) acc) p.transaction_id ≡ true
  pushed_if_due p b acc h = ground (
    arith,
    has_label-append_right acc (arrival delay p b ∷ []) p.transaction_id,
    ==_iff p.transaction_id p.transaction_id,
  )

  has_label-collect :
      (rows : List (Prediction F)) (acc : List Label) (i : ℕ)
      → has_label acc i ≡ true
      → has_label (collect ground_truth delay limit now rows acc) i ≡ true
  has_label-collect [] acc i h = unfold collect in h
  has_label-collect (p ∷ rows) acc i h =
      elim (collect-cases ground_truth delay limit now p rows acc) [
        | inl (_, e) ↦ rw e (has_label-collect rows acc i h)
        | inr (b, _, inl (_, e)) ↦ rw e (has_label-push_if_due p b acc i h)
        | inr (b, _, inr (_, e)) ↦
            rw e (has_label-collect rows _ i (has_label-push_if_due p b acc i h))
      ]

  -- A label is there for the prediction, if it is due.
  abbrev pub IsServed : List Label → Prediction F → Type 0
  IsServed labels p = IsDue ground_truth delay now p → has_label labels p.transaction_id ≡ true

  -- A loop that does not reach the limit has chosen every row that is due.
  collect_complete :
      (rows : List (Prediction F)) (acc : List Label)
      → length (collect ground_truth delay limit now rows acc) < limit
      → All (IsServed (collect ground_truth delay limit now rows acc)) rows
  collect_complete [] acc h = tt
  collect_complete (p ∷ rows) acc h = elim (collect-cases ground_truth delay limit now p rows acc) [
    | inl (absent, e) ↦
        subst (λ c. All (IsServed c) (p ∷ rows)) (sym e)
          ((λ due. cc (due.1, absent)), collect_complete rows acc (rw e at h))
    | inr (b, _, inl (full, e)) ↦ absurd (omega (arith, ap length e))
    | inr (b, _, inr (_, e)) ↦
        subst (λ c. All (IsServed c) (p ∷ rows)) (sym e)
          (
            (λ due. has_label-collect rows _ p.transaction_id (pushed_if_due p b acc due.2)),
            collect_complete rows _ (rw e at h),
          )
  ]

  abbrev waiting : List (Prediction F) → List Label → List (Prediction F)
  waiting predictions labels = keep_if (λ p. not (has_label labels p.transaction_id)) predictions

  -- If a run reports fewer labels than its maximum, and the predictions without a label are at most
  -- five times the maximum, then afterwards every prediction whose transaction the ground truth knows
  -- and whose label is due has a label.
  pub simulate_label_arrivals_complete :
      (predictions : List (Prediction F)) (labels : List Label)
      → length (waiting predictions labels) ≤ limit * 5
      → (simulate_label_arrivals ground_truth delay limit now predictions labels).0 < limit
      → All
          (IsServed (simulate_label_arrivals ground_truth delay limit now predictions labels).1)
          predictions
  unfolding simulate_label_arrivals unlabeled
  simulate_label_arrivals_complete predictions labels few short =
      let rows = waiting predictions labels in
      let whole = take-all (limit * 5) rows few in
      let chosen = collect ground_truth delay limit now rows [] in
      let served = collect_complete rows [] (rw whole at short) in
      rw whole (
        All_of_keep_if (IsServed (insert_labels labels chosen))
          (λ p. not (has_label labels p.transaction_id)) predictions
          (λ p out due.
            has_label-insert_labels labels chosen p.transaction_id (ground (arith, out)))
          (All-imp (IsServed chosen) (IsServed (insert_labels labels chosen))
            (λ p s due.
              has_label-insert_labels labels chosen p.transaction_id
                (let t = s due in ground (arith, t)))
            rows served))

  collect-none :
      (rows : List (Prediction F)) (acc : List Label)
      → All (λ p. ground_truth p.transaction_id ≡ none) rows
      → collect ground_truth delay limit now rows acc ≡ acc
  unfolding collect
  collect-none [] acc h = refl
  collect-none (p ∷ rows) acc h = ground (arith, h.0, collect-none rows acc h.1)

  -- If the ground truth knows none of the first predictions without a label that the scan returns,
  -- five times the maximum, then a run inserts nothing at any time, whatever stands behind them.
  pub simulate_label_arrivals-starved :
      (predictions : List (Prediction F)) (labels : List Label)
      → All
          (λ p. ground_truth p.transaction_id ≡ none)
          (take (limit * 5) (waiting predictions labels))
      → simulate_label_arrivals ground_truth delay limit now predictions labels ≡ (0, labels)
  unfolding simulate_label_arrivals unlabeled insert_labels
  simulate_label_arrivals-starved predictions labels h =
      rw (collect-none (take (limit * 5) (waiting predictions labels)) [] h)
