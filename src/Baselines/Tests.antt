-- ===== src/Baselines/Tests.antt =====
-- A sample of a few rows, and the property at it.
use fraud_ml_platform.Shared.{
  ℕ, zero, suc, ◌≤◌, ◌≡◌, refl, Bool, true, false, List, [], ◌∷◌, arith, take, length-take,
}
use fraud_ml_platform.Baselines.Models.{
  numeric_cols, places, insert_label, label_keys, insert_place, sort_places, sample_groups,
  stratified_sample,
}
use fraud_ml_platform.Baselines.Sampling.{count}
use fraud_ml_platform.Baselines.Shares.{IsStratified, stratified_sample-IsStratified}
use fraud_ml_platform.Baselines.Stratified.{IsSampler}

abbrev first_ones : List ℕ → ℕ → List ℕ
first_ones g k = take k g

count-take : (p : ℕ → Bool) (k : ℕ) (g : List ℕ) → count p (take k g) ≤ count p g
count-take p zero g = omega arith
count-take p (suc k) [] = omega arith
count-take p (suc k) (x ∷ g) = ground (arith, count-take p k g)

first_ones-IsSampler : IsSampler first_ones
first_ones-IsSampler = record {
  size = λ g k h. omega (arith, length-take k g, h);
  without = λ g k p. count-take p k g;
}

abbrev six_labels : List ℕ
six_labels = 0 ∷ 1 ∷ 0 ∷ 0 ∷ 1 ∷ 0 ∷ []

three_of_six : stratified_sample first_ones six_labels 3 ≡ 0 ∷ 1 ∷ 2 ∷ []
unfolding stratified_sample sample_groups sort_places insert_place places label_keys insert_label
three_of_six = refl

numeric_ones :
    numeric_cols (
      record { name = "C1"; is_number = true; nulls = true ∷ false ∷ [] }
      ∷ record { name = "C2"; is_number = true; nulls = true ∷ true ∷ [] }
      ∷ record { name = "ProductCD"; is_number = false; nulls = false ∷ [] }
      ∷ [])
    ≡ "C1" ∷ []
unfolding numeric_cols
numeric_ones = refl

stratified_sample-IsStratified_example :
    IsStratified 3 six_labels (stratified_sample first_ones six_labels 3)
stratified_sample-IsStratified_example =
    stratified_sample-IsStratified first_ones first_ones-IsSampler six_labels 3 (omega arith)
