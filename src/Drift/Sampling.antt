-- ===== src/Drift/Sampling.antt =====
-- The two samples of a drift check.
use fraud_ml_platform.Shared.{
  ◌≡◌, refl, sym, ap, ◌∙◌, Bool, true, false, ◌&&◌, ◌||◌, List, [], ◌∷◌, arith, length, keep_if,
}
use fraud_ml_platform.Database.{Prediction}
use fraud_ml_platform.Drift.Runner.{
  in_window, Windows, insert_oldest, oldest_first, fetch_windows, samples,
}

or_left : (a b c : Bool) → ((a || b) && (a && c)) ≡ (a && c)
or_left true b c = refl
or_left false b c = ground arith

or_right : (a b c : Bool) → ((a || b) && (b && c)) ≡ (b && c)
or_right true b c = refl
or_right false true c = refl
or_right false false c = refl

module _ {F : Type 0} where
  keep_if-insert_oldest :
      (t : Prediction F → Bool) (r : Prediction F) (rs : List (Prediction F))
      → length (keep_if t (insert_oldest r rs)) ≡ length (keep_if t (r ∷ rs))
  unfolding insert_oldest
  keep_if-insert_oldest t r [] = refl
  keep_if-insert_oldest t r (x ∷ xs) = ground (arith, keep_if-insert_oldest t r xs)

  keep_if-oldest_first :
      (t : Prediction F → Bool) (rs : List (Prediction F))
      → length (keep_if t (oldest_first rs)) ≡ length (keep_if t rs)
  unfolding oldest_first
  keep_if-oldest_first t [] = refl
  keep_if-oldest_first t (r ∷ rs) =
      ground (arith, keep_if-insert_oldest t r (oldest_first rs), keep_if-oldest_first t rs)

  keep_if-keep_if :
      (p q : Prediction F → Bool) (rs : List (Prediction F))
      → keep_if p (keep_if q rs) ≡ keep_if (λ r. q r && p r) rs
  keep_if-keep_if p q [] = refl
  keep_if-keep_if p q (r ∷ rs) = ground (arith, keep_if-keep_if p q rs)

  keep_if-ext :
      (p q : Prediction F → Bool) (rs : List (Prediction F))
      → ((r : Prediction F) → p r ≡ q r)
      → keep_if p rs ≡ keep_if q rs
  keep_if-ext p q [] h = refl
  keep_if-ext p q (r ∷ rs) h = ground (arith, h r, keep_if-ext p q rs h)

  -- A window of the rows, counted by any test, is that window of the table.
  sample-count :
      (t window all : Prediction F → Bool) (predictions : List (Prediction F))
      → ((r : Prediction F) → (all r && (window r && t r)) ≡ (window r && t r))
      → length (keep_if t (keep_if window (oldest_first (keep_if all predictions))))
        ≡ length (keep_if t (keep_if window predictions))
  sample-count t window all predictions h =
      ap length (keep_if-keep_if t window (oldest_first (keep_if all predictions)))
      ∙ keep_if-oldest_first (λ r. window r && t r) (keep_if all predictions)
      ∙ ap length (
          keep_if-keep_if (λ r. window r && t r) all predictions
          ∙ keep_if-ext (λ r. all r && (window r && t r)) (λ r. window r && t r) predictions h
          ∙ sym (keep_if-keep_if t window predictions))

  -- The two samples of a check are the two windows of the table, also where the windows overlap: any
  -- test holds of as many rows of a sample as of predictions in its window.
  pub samples-windows :
      (t : Prediction F → Bool) (w : Windows) (predictions : List (Prediction F))
      → (length (keep_if t (samples w predictions).0)
          ≡ length (keep_if t (keep_if (in_window w.reference_start w.reference_end) predictions)))
        × (length (keep_if t (samples w predictions).1)
            ≡ length (keep_if t (keep_if (in_window w.recent_start w.recent_end) predictions)))
  unfolding fetch_windows
  samples-windows t w predictions =
      let ref = in_window w.reference_start w.reference_end in
      let rec' = in_window w.recent_start w.recent_end in
      (
        sample-count t ref (λ p. ref p || rec' p) predictions (λ r. or_left (ref r) (rec' r) (t r)),
        sample-count t rec' (λ p. ref p || rec' p) predictions
            (λ r. or_right (ref r) (rec' r) (t r)),
      )
