-- ===== src/Labels/Loop.antt =====
-- The loop that chooses the labels to insert: what each chosen label is, and how many there are.
use fraud_ml_platform.Shared.{
  ℕ, ◌+◌, ◌≤◌, ◌<◌, ◌≡◌, refl, ap, ◌⊎◌, inl, inr, Bool, Option, none, some, List, [], ◌∷◌, Memᴰ,
  arith, leb, leb→le, Bool-cases, Option-cases, length, All, length-append, All-append,
}
use fraud_ml_platform.Database.{Time, Prediction, Label}
use fraud_ml_platform.Labels.Simulator.{arrival, push_if_due, collect}

length-push_if_due :
    (now : Time) (l : Label) (acc : List Label) → length (push_if_due now l acc) ≤ length acc + 1
length-push_if_due now l acc = ground (arith, length-append acc (l ∷ []))

module _ {F : Type 0} (ground_truth : ℕ → Option Bool) (delay : ℕ → Time) (now : Time)
    (predictions : List (Prediction F)) where
  -- What a label of a run says: it is due, it has the ground truth, and it comes from a prediction
  -- of its transaction and the delay.
  pub record IsArrival (l : Label) : Type 0 where
    pub due : l.available_at ≤ now
    pub truth : ground_truth l.transaction_id ≡ some l.is_fraud
    pub simulated : l.label_source ≡ "simulator"
    pub prediction : Prediction F
    pub predicted : Memᴰ prediction predictions
    pub same_transaction : l.transaction_id ≡ prediction.transaction_id
    pub delayed : l.available_at ≡ prediction.created_at + delay prediction.transaction_id

  push_if_due-IsArrival :
      (p : Prediction F) (b : Bool) (acc : List Label)
      → Memᴰ p predictions
      → ground_truth p.transaction_id ≡ some b
      → All IsArrival acc
      → All IsArrival (push_if_due now (arrival delay p b) acc)
  push_if_due-IsArrival p b acc m e h =
      elim (Bool-cases (leb (arrival delay p b).available_at now)) [
        | inl due ↦ rw due (
            All-append IsArrival acc (arrival delay p b ∷ []) h (
              record {
                due = leb→le _ _ due;
                truth = e;
                simulated = refl;
                prediction = p;
                predicted = m;
                same_transaction = refl;
                delayed = refl;
              },
              tt,
            ))
        | inr late ↦ rw late h
      ]

module _ {F : Type 0} (ground_truth : ℕ → Option Bool) (delay : ℕ → Time) (limit : ℕ)
    (now : Time) where
  abbrev pub collected : List (Prediction F) → List Label → List Label
  collected = collect ground_truth delay limit now

  -- The three ways in which the loop passes a row.
  pub collect-cases :
      (p : Prediction F) (rows : List (Prediction F)) (acc : List Label)
      → ((ground_truth p.transaction_id ≡ none) × (collected (p ∷ rows) acc ≡ collected rows acc))
        ⊎ ((b : Bool) × (ground_truth p.transaction_id ≡ some b)
            × (((limit ≤ length (push_if_due now (arrival delay p b) acc))
                  × (collected (p ∷ rows) acc ≡ push_if_due now (arrival delay p b) acc))
                ⊎ ((length (push_if_due now (arrival delay p b) acc) < limit)
                    × (collected (p ∷ rows) acc
                        ≡ collected rows (push_if_due now (arrival delay p b) acc)))))
  unfolding collect
  collect-cases p rows acc = elim (Option-cases (ground_truth p.transaction_id)) [
    | inl absent ↦ inl (absent, ground (arith, absent))
    | inr (b, known) ↦ inr (
      b,
      known,
      elim (Bool-cases (leb limit (length (push_if_due now (arrival delay p b) acc)))) [
        | inl full ↦ inl (leb→le _ _ full, ground (arith, known, full))
        | inr room ↦ inr (ground (arith, room), ground (arith, known, room))
      ],
    )
  ]

  pub collect-IsArrival :
      (predictions rows : List (Prediction F)) (acc : List Label)
      → All (λ p. Memᴰ p predictions) rows
      → All (IsArrival ground_truth delay now predictions) acc
      → All (IsArrival ground_truth delay now predictions) (collected rows acc)
  collect-IsArrival predictions [] acc m h = unfold collect in h
  collect-IsArrival predictions (p ∷ rows) acc m h = elim (collect-cases p rows acc) [
    | inl (_, e) ↦ rw e (collect-IsArrival predictions rows acc m.1 h)
    | inr (b, known, inl (_, e)) ↦
        rw e (push_if_due-IsArrival ground_truth delay now predictions p b acc m.0 known h)
    | inr (b, known, inr (_, e)) ↦ rw e (
        collect-IsArrival predictions rows _ m.1
          (push_if_due-IsArrival ground_truth delay now predictions p b acc m.0 known h))
  ]

  pub length-collect :
      (rows : List (Prediction F)) (acc : List Label)
      → length acc < limit
      → length (collected rows acc) ≤ limit
  length-collect [] acc h = unfold collect in omega arith
  length-collect (p ∷ rows) acc h = elim (collect-cases p rows acc) [
    | inl (_, e) ↦ rw e (length-collect rows acc h)
    | inr (b, known, inl (_, e)) ↦
        omega (arith, ap length e, length-push_if_due now (arrival delay p b) acc)
    | inr (b, known, inr (room, e)) ↦ rw e (length-collect rows _ room)
  ]
