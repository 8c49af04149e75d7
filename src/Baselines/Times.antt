-- ===== src/Baselines/Times.antt =====
-- A sample in the order of the rows keeps the order of their times.
use fraud_ml_platform.Shared.{ℕ, zero, suc, ◌≤◌, ◌<◌, List, [], ◌∷◌, arith, length, All, item}
use fraud_ml_platform.Baselines.Models.{at_places}
use fraud_ml_platform.Baselines.Sampling.{IsSorted}

item-least : (x : ℕ) (dt : List ℕ) → All (λ t. x ≤ t) dt → (i : ℕ) → i < length dt → x ≤ item i dt
item-least x [] h i less = absurd (omega (arith, less))
item-least x (t ∷ dt) h zero less = h.0
item-least x (t ∷ dt) h (suc i) less = item-least x dt h.1 i (omega (arith, less))

item-monotone :
    (dt : List ℕ) → IsSorted dt → (i j : ℕ) → i ≤ j → j < length dt → item i dt ≤ item j dt
unfolding IsSorted
item-monotone [] h i j le less = absurd (omega (arith, less))
item-monotone (t ∷ dt) h zero zero le less = omega arith
item-monotone (t ∷ dt) h zero (suc j) le less = item-least t dt h.0 j (omega (arith, less))
item-monotone (t ∷ dt) h (suc i) zero le less = absurd (omega (arith, le))
item-monotone (t ∷ dt) h (suc i) (suc j) le less =
    item-monotone dt h.1 i j (omega (arith, le)) (omega (arith, less))

pub at_places-IsSorted :
    (dt : List ℕ)
    → IsSorted dt
    → (idx : List ℕ) → IsSorted idx
    → All (λ i. i < length dt) idx
    → IsSorted (at_places dt idx)
unfolding IsSorted
at_places-IsSorted dt h [] sorted inside = tt
at_places-IsSorted dt h (i ∷ idx) sorted inside =
    (later idx sorted.0 inside.1, at_places-IsSorted dt h idx sorted.1 inside.1)
  where
    later :
        (js : List ℕ)
        → All (λ j. i ≤ j) js
        → All (λ j. j < length dt) js
        → All (λ t. item i dt ≤ t) (at_places dt js)
    later [] a b = tt
    later (j ∷ js) a b = (item-monotone dt h i j a.0 b.0, later js a.1 b.1)
