-- ===== src/Training/Purging.antt =====
-- The gap between the rows of a fold, and the account of the folds.
use fraud_ml_platform.Shared.{
  ℕ, ◌+◌, ◌*◌, ◌≤◌, ◌≡◌, refl, sym, ◌∙◌, subst, inl, inr, Bool, true, false, none, some, List, [],
  ◌∷◌, arith, ◌==◌, Bool-cases, Option-cases, length, keep_if, any_of, All, All-imp, All-keep_if,
  item, Result, ok, >>=-eq-ok,
}
use fraud_ml_platform.Training.Splits.{
  Event, fold, warn_dropped, warn_all_dropped, max_at, is_past_gap, purge, split_folds, split,
}

max_at-bound : (dt is : List ℕ) (m : ℕ) → max_at dt is ≡ some m → All (λ i. item i dt ≤ m) is
max_at-bound dt [] m h = tt
max_at-bound dt (i ∷ is) m h = elim (Option-cases (max_at dt is)) [
  | inl none_eq ↦ (
    ground (arith, h, none_eq),
    subst (All (λ j. item j dt ≤ m)) (sym (max_at-none dt is none_eq)) tt,
  )
  | inr (k, e) ↦ (
    ground (arith, h, e),
    All-imp (λ j. item j dt ≤ k) (λ j. item j dt ≤ m) (λ j l. ground (arith, h, e, l)) is
        (max_at-bound dt is k e),
  )
]
  where
    max_at-none : (dt is : List ℕ) → max_at dt is ≡ none → is ≡ []
    max_at-none dt [] h = refl
    max_at-none dt (i ∷ is) h = elim (Option-cases (max_at dt is)) [
      | inl e ↦ absurd (ground (arith, h, e))
      | inr (k, e) ↦ absurd (ground (arith, h, e))
    ]

-- Every row of the one list is at least the gap behind every row of the other.
abbrev pub IsApart : List ℕ → ℕ → List ℕ → List ℕ → Type 0
IsApart dt gap_seconds train_idx val_idx =
    All (λ v. All (λ t. item t dt + gap_seconds ≤ item v dt) train_idx) val_idx

purge-IsApart :
    (dt : List ℕ) (gap_seconds : ℕ) (train_idx val_idx : List ℕ)
    → IsApart dt gap_seconds train_idx (purge dt gap_seconds train_idx val_idx)
unfolding purge
purge-IsApart dt gap_seconds train_idx val_idx =
    All-imp (λ v. is_past_gap dt gap_seconds (max_at dt train_idx) v ≡ true)
      (λ v. All (λ t. item t dt + gap_seconds ≤ item v dt) train_idx)
      (λ v h. elim (Option-cases (max_at dt train_idx)) [
        | inl e ↦ absurd (ground (arith, h, e))
        | inr (m, e) ↦
            All-imp (λ t. item t dt ≤ m) (λ t. item t dt + gap_seconds ≤ item v dt)
              (λ t l. ground (arith, h, e, l)) train_idx (max_at-bound dt train_idx m e)
      ])
      (purge dt gap_seconds train_idx val_idx)
      (All-keep_if (is_past_gap dt gap_seconds (max_at dt train_idx)) val_idx)

-- A fold that is yielded has rows to validate on, all of them past the gap.
abbrev pub IsPurged : List ℕ → ℕ → Event → Type 0
IsPurged dt gap_seconds (fold train_idx val_idx) =
    (1 ≤ length val_idx) × IsApart dt gap_seconds train_idx val_idx
IsPurged dt gap_seconds _ = Unit

split_folds-IsPurged :
    (dt : List ℕ) (gap_seconds n_splits fold_i skipped : ℕ) (folds : List (List ℕ × List ℕ))
    → All (IsPurged dt gap_seconds) (split_folds dt gap_seconds n_splits fold_i skipped folds)
unfolding split_folds
split_folds-IsPurged dt g n i skipped [] = elim (Bool-cases (skipped == n)) [
  | inl h ↦ rw h (tt, tt)
  | inr h ↦ rw h tt
]
split_folds-IsPurged dt g n i skipped ((train_idx, val_idx) ∷ folds) =
    elim (Bool-cases (length (purge dt g train_idx val_idx) == 0)) [
      | inl h ↦ rw h (tt, split_folds-IsPurged dt g n (i + 1) (skipped + 1) folds)
      | inr h ↦ rw h (
        (ground (arith, h), purge-IsApart dt g train_idx val_idx),
        split_folds-IsPurged dt g n (i + 1) skipped folds,
      )
    ]

-- In each fold that a split yields, the rows to validate on are some, and each of them is at least
-- the gap of days, in seconds, later than each row to train on, whatever the folds and the order of
-- the rows.
pub split-IsPurged :
    (time_series_split : ℕ → ℕ → Result (List (List ℕ × List ℕ))) (n_splits gap_days : ℕ)
    (dt : List ℕ) (events : List Event)
    → split time_series_split n_splits gap_days dt ≡ ok events
    → All (IsPurged dt (gap_days * 86400)) events
unfolding split
split-IsPurged time_series_split n_splits gap_days dt events h =
    let (folds, _, e) = >>=-eq-ok (time_series_split n_splits (length dt)) _ h in
    let same : split_folds dt (gap_days * 86400) n_splits 0 0 folds ≡ events = cc in
    subst (All (IsPurged dt (gap_days * 86400))) same
      (split_folds-IsPurged dt (gap_days * 86400) n_splits 0 0 folds)

abbrev pub is_fold : Event → Bool
is_fold (fold _ _) = true
is_fold _ = false

abbrev pub is_drop : Event → Bool
is_drop (warn_dropped _) = true
is_drop _ = false

abbrev pub is_last_warning : Event → Bool
is_last_warning warn_all_dropped = true
is_last_warning _ = false

split_folds-accounts :
    (dt : List ℕ) (gap_seconds n_splits fold_i skipped : ℕ) (folds : List (List ℕ × List ℕ))
    → let events = split_folds dt gap_seconds n_splits fold_i skipped folds in
      (length (keep_if is_fold events) + length (keep_if is_drop events) ≡ length folds)
      × (any_of is_last_warning events ≡ (skipped + length (keep_if is_drop events) == n_splits))
unfolding split_folds
split_folds-accounts dt g n i skipped [] = elim (Bool-cases (skipped == n)) [
  | inl h ↦ rw h (refl, ground (arith, h))
  | inr h ↦ rw h (refl, ground (arith, h))
]
split_folds-accounts dt g n i skipped ((train_idx, val_idx) ∷ folds) =
    elim (Bool-cases (length (purge dt g train_idx val_idx) == 0)) [
      | inl h ↦
          let (a, b) = split_folds-accounts dt g n (i + 1) (skipped + 1) folds in
          rw h (omega (arith, a), b ∙ ground arith)
      | inr h ↦
          let (a, b) = split_folds-accounts dt g n (i + 1) skipped folds in
          rw h (omega (arith, a), b)
    ]

-- If the library gives as many folds as it is asked for, then the folds that are
-- yielded and those that are warned about are together all of them, and the last warning is given
-- exactly when nothing is yielded.
pub split-accounts :
    (time_series_split : ℕ → ℕ → Result (List (List ℕ × List ℕ))) (n_splits gap_days : ℕ)
    (dt : List ℕ) (events : List Event)
    → ((folds : List (List ℕ × List ℕ))
        → time_series_split n_splits (length dt) ≡ ok folds
        → length folds ≡ n_splits)
    → split time_series_split n_splits gap_days dt ≡ ok events
    → (length (keep_if is_fold events) + length (keep_if is_drop events) ≡ n_splits)
      × (any_of is_last_warning events ≡ (length (keep_if is_fold events) == 0))
unfolding split
split-accounts time_series_split n_splits gap_days dt events folds_law h =
    let (folds, f, e) = >>=-eq-ok (time_series_split n_splits (length dt)) _ h in
    let same : split_folds dt (gap_days * 86400) n_splits 0 0 folds ≡ events = cc in
    let (a, b) =
      subst
        (λ es.
          (length (keep_if is_fold es) + length (keep_if is_drop es) ≡ length folds)
          × (any_of is_last_warning es ≡ (0 + length (keep_if is_drop es) == n_splits)))
        same (split_folds-accounts dt (gap_days * 86400) n_splits 0 0 folds) in
    let total = a ∙ folds_law folds f in (total, b ∙ ground (arith, total))
