-- ===== src/Baselines/Shares.antt =====
-- The shares of the labels in the stratified sample of training/src/baselines.py.
use native.Mathlib.Nat.{
  div-mul-le_self, le_of_mul-le-mul_right, div-le_of_le-mul, mul-le-mul_left, mul_comm,
}
use fraud_ml_platform.Shared.{
  ℕ, ◌+◌, ◌-◌, ◌*◌, ◌/◌, ◌≤◌, ◌<◌, ◌≡◌, refl, sym, ap, ◌∙◌, subst, ◌≢◌, inl, inr, Bool, true, false,
  not, List, [], ◌∷◌, arith, leb, ◌==◌, Bool-cases, length, any_of, All, length-append, All-imp,
  item,
}
use fraud_ml_platform.Baselines.Models.{
  places, label_keys, sample_size, sort_places, sample_groups, stratified_sample, at_places,
}
use fraud_ml_platform.Baselines.Sampling.{
  count, count-append, count-none, count-all, IsSorted, sort_places-IsSorted, count-sort_places,
  places-All, length-places, label_keys-IsAscending, any_of-label_keys,
}
use fraud_ml_platform.Baselines.Stratified.{
  IsSampler, count-complement, All_of_count, count-places_one, group_total, group_total-le,
  group_sample-none, sample_groups-count,
}
use fraud_ml_platform.Baselines.Times.{at_places-IsSorted}

-- A sample of n rows out of the labels y, by their places.
pub record IsStratified (n : ℕ) (y idx : List ℕ) : Type 0 where
  pub in_order : IsSorted idx
  pub once : (j : ℕ) → count (λ i. i == j) idx ≤ 1
  pub inside : All (λ i. i < length y) idx
  pub at_most : length idx ≤ n
  pub in_time : (dt : List ℕ) → length dt ≡ length y → IsSorted dt → IsSorted (at_places dt idx)
  pub shares :
      (label : ℕ) → count (λ i. item i y == label) idx ≡ n * count (λ x. x == label) y / length y

sample_size-share : (n group total : ℕ) → n < total → sample_size n group total ≡ n * group / total
sample_size-share n group total less =
    let e : group * n ≡ n * group = mul_comm group n in
    let e' : group * total ≡ total * group = mul_comm group total in
    let grown : group * n ≤ group * total = mul-le-mul_left group (omega (arith, less)) in
    let few = div-le_of_le-mul total {m = n * group} {n = group} (omega (arith, grown, e, e')) in
    omega (arith, few)

module _ (sample : List ℕ → ℕ → List ℕ) (law : IsSampler sample) (n : ℕ) (y : List ℕ)
    (less : n < length y) where
  length-group :
      (key : ℕ)
      → length (sample (places key 0 y) (sample_size n (length (places key 0 y)) (length y)))
        ≡ n * count (λ x. x == key) y / length y
  length-group key =
      let size = length-places key 0 y in
      law.size (places key 0 y) (sample_size n (length (places key 0 y)) (length y)) (omega arith)
      ∙ sample_size-share n (length (places key 0 y)) (length y) less
      ∙ ap (λ g. n * g / length y) size

  -- All of a group's sample has the group's label.
  count-group :
      (key : ℕ)
      → let chosen = sample (places key 0 y) (sample_size n (length (places key 0 y)) (length y)) in
        count (λ i. item i y == key) chosen ≡ length chosen
  count-group key =
      let k = sample_size n (length (places key 0 y)) (length y) in
      let others = law.without (places key 0 y) k (λ i. not (item i y == key)) in
      let none_there =
        count-none (λ i. not (item i y == key)) (places key 0 y)
          (All-imp (λ i. (0 ≤ i) × (i < 0 + length y) × (item (i - 0) y ≡ key))
            (λ i. not (item i y == key) ≡ false)
            (λ i m.
              let e : i - 0 ≡ i = omega arith in
              let same : item i y ≡ key = rw e at m.2 in ground (arith, same))
            (places key 0 y) (places-All key 0 y)) in
      omega (
        arith,
        others,
        none_there,
        count-complement (λ i. item i y == key) (sample (places key 0 y) k),
      )

  shares_of :
      (label : ℕ)
      → count (λ i. item i y == label) (sample_groups sample n y (label_keys y))
        ≡ n * count (λ x. x == label) y / length y
  shares_of label =
      let all =
        sample_groups-count sample law n y (λ i. item i y == label) label (label_keys y)
          (label_keys-IsAscending y) (λ i inside other. ground (arith, other)) in
      let keys = any_of-label_keys label y in
      elim (Bool-cases (any_of (λ x. x == label) y)) [
        | inl e ↦ rw (keys, e) at all ∙ count-group label ∙ length-group label
        | inr e ↦
            let none_there : count (λ x. x == label) y ≡ 0 = any_of-count (λ x. x == label) y e in
            let nothing : n * 0 / length y ≡ 0 = div_zero (length y) in
            rw (keys, e) at all ∙ sym nothing ∙ ap (λ c. n * c / length y) (sym none_there)
      ]
    where
      any_of-count : (p : ℕ → Bool) (xs : List ℕ) → any_of p xs ≡ false → count p xs ≡ 0
      any_of-count p [] h = refl
      any_of-count p (x ∷ xs) h = elim (Bool-cases (p x)) [
        | inl e ↦ absurd (ground (arith, h, e))
        | inr e ↦ rw e (any_of-count p xs (ground (arith, h, e)))
      ]

      div_zero : (d : ℕ) → n * 0 / d ≡ 0
      div_zero d = ground arith

  once_of : (j : ℕ) → count (λ i. i == j) (sample_groups sample n y (label_keys y)) ≤ 1
  once_of j =
      let label = item j y in
      let g = places label 0 y in
      let all =
        sample_groups-count sample law n y (λ i. i == j) label (label_keys y)
          (label_keys-IsAscending y) (λ i inside other. other_place i j other) in
      let few = law.without g (sample_size n (length g) (length y)) (λ i. i == j) in
      let one = count-places_one j label 0 y in
      elim (Bool-cases (any_of (λ k. k == label) (label_keys y))) [
        | inl e ↦ let all' = rw e at all in omega (arith, all', few, one)
        | inr e ↦ let all' = rw e at all in omega (arith, all')
      ]
    where
      other_place : (i j : ℕ) → item i y ≢ item j y → (i == j) ≡ false
      other_place i j other = elim (Bool-cases (i == j)) [
        | inl e ↦ let same : i ≡ j = ground (arith, e) in absurd (other (ap (λ k. item k y) same))
        | inr e ↦ e
      ]

  outside_of : (keys : List ℕ) → count (λ i. leb (length y) i) (sample_groups sample n y keys) ≡ 0
  unfolding sample_groups
  outside_of [] = refl
  outside_of (key ∷ keys) =
      let chosen = sample (places key 0 y) (sample_size n (length (places key 0 y)) (length y)) in
      let first =
        group_sample-none sample law n y key (λ i. leb (length y) i)
          (λ i inside m. ground (arith, inside)) in
      count-append (λ i. leb (length y) i) chosen (sample_groups sample n y keys)
      ∙ omega (arith, first, outside_of keys)

  -- A product with the number of rows, since the sizes are rounded down.
  length_of :
      (keys : List ℕ) → length (sample_groups sample n y keys) * length y ≤ n * group_total y keys
  unfolding sample_groups
  length_of [] = omega arith
  length_of (key ∷ keys) =
      let chosen = sample (places key 0 y) (sample_size n (length (places key 0 y)) (length y)) in
      let rest = sample_groups sample n y keys in
      let group = count (λ x. x == key) y in
      let size = length-group key in
      let total = length-append chosen rest in
      let rounded = div-mul-le_self (n * group) (length y) in
      let first : length chosen * length y ≤ n * group =
        subst (λ l. l * length y ≤ n * group) (sym size) rounded in
      subst (λ l. l * length y ≤ n * (group + group_total y keys)) (sym total)
        (sum_le (length chosen) (length rest) (length y) n group (group_total y keys) first
          (length_of keys))
    where
      sum_le : (a b d m g t : ℕ) → a * d ≤ m * g → b * d ≤ m * t → (a + b) * d ≤ m * (g + t)
      sum_le a b d m g t h k = grind (arith, h, k)

  sample_groups-IsStratified :
      IsStratified n y (sort_places (sample_groups sample n y (label_keys y)))
  sample_groups-IsStratified =
      let chosen = sample_groups sample n y (label_keys y) in
      let bound = length_of (label_keys y) in
      let groups = group_total-le y (label_keys y) (label_keys-IsAscending y) in
      let most : n * group_total y (label_keys y) ≤ n * length y = mul-le-mul_left n groups in
      let few =
        le_of_mul-le-mul_right {m = length chosen} {n = n} {k = length y}
          (omega (arith, bound, most)) (omega (arith, less)) in
      let same = length-sort_places chosen in
      let all_inside =
        All-imp (λ i. leb (length y) i ≡ false) (λ i. i < length y) (λ i e. ground (arith, e))
          (sort_places chosen)
          (All_of_count (λ i. leb (length y) i) (sort_places chosen)
            (count-sort_places (λ i. leb (length y) i) chosen ∙ outside_of (label_keys y))) in
      record {
        in_order = sort_places-IsSorted chosen;
        once = λ j. subst (λ c. c ≤ 1) (sym (count-sort_places (λ i. i == j) chosen)) (once_of j);
        inside = all_inside;
        in_time = λ dt size sorted.
            at_places-IsSorted dt sorted (sort_places chosen) (sort_places-IsSorted chosen) (
              All-imp (λ i. i < length y) (λ i. i < length dt) (λ i l. omega (arith, size, l))
                (sort_places chosen) all_inside);
        at_most = omega (arith, same, few);
        shares = λ label. count-sort_places (λ i. item i y == label) chosen ∙ shares_of label;
      }
    where
      all_true : (is : List ℕ) → All (λ _. true ≡ true) is
      all_true [] = tt
      all_true (i ∷ is) = (refl, all_true is)

      length-sort_places : (is : List ℕ) → length (sort_places is) ≡ length is
      length-sort_places is =
          sym (count-all (λ _. true) (sort_places is) (all_true (sort_places is)))
          ∙ count-sort_places (λ _. true) is
          ∙ count-all (λ _. true) is (all_true is)

-- Where there are more rows than the sample is to have, and pandas draws the number that it is asked
-- for, without replacement, the sample is in the order of the rows, has no row twice, has at most
-- the number of rows asked for, has of each label the stated share of its rows, rounded down, and
-- keeps sorted times sorted.
pub stratified_sample-IsStratified :
    (sample : List ℕ → ℕ → List ℕ)
    → IsSampler sample
    → (y : List ℕ) (n : ℕ) → n < length y
    → IsStratified n y (stratified_sample sample y n)
unfolding stratified_sample
stratified_sample-IsStratified sample law y n less =
    let many : leb (length y) n ≡ false = ground (arith, less) in
    rw (stratified_sample, many) (sample_groups-IsStratified sample law n y less)
