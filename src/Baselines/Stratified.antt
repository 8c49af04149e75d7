-- ===== src/Baselines/Stratified.antt =====
-- The stratified sample of training/src/baselines.py against what it is to be.
use fraud_ml_platform.Shared.{
  ℕ, ◌+◌, ◌-◌, ◌≤◌, ◌<◌, ◌≡◌, refl, ap, ◌∙◌, ◌≢◌, inl, inr, Bool, false, not, List, [], ◌∷◌, arith,
  ◌==◌, if◌then◌else◌, Bool-cases, length, any_of, All, All-imp, item,
}
use fraud_ml_platform.Baselines.Models.{places, sample_size, sample_groups}
use fraud_ml_platform.Baselines.Sampling.{count, count-append, count-none, places-All, IsAscending}

-- pandas' `sample`, without replacement: as many items as are asked for, none more often than it is
-- in the group.
pub record IsSampler (sample : List ℕ → ℕ → List ℕ) : Type 0 where
  pub size : (g : List ℕ) (k : ℕ) → k ≤ length g → length (sample g k) ≡ k
  pub without : (g : List ℕ) (k : ℕ) (p : ℕ → Bool) → count p (sample g k) ≤ count p g

pub count-complement :
    (p : ℕ → Bool) (xs : List ℕ) → count p xs + count (λ x. not (p x)) xs ≡ length xs
count-complement p [] = omega arith
count-complement p (x ∷ xs) = ground (arith, count-complement p xs)

pub All_of_count : (p : ℕ → Bool) (xs : List ℕ) → count p xs ≡ 0 → All (λ x. p x ≡ false) xs
All_of_count p [] h = tt
All_of_count p (x ∷ xs) h = elim (Bool-cases (p x)) [
  | inl e ↦ absurd (omega (arith, rw e at h))
  | inr e ↦ (e, All_of_count p xs (rw e at h))
]

pub count-places_one : (j label i : ℕ) (y : List ℕ) → count (λ k. k == j) (places label i y) ≤ 1
unfolding places
count-places_one j label i [] = omega arith
count-places_one j label i (x ∷ ys) = elim (Bool-cases (x == label)) [
  | inr e ↦ rw e (count-places_one j label (i + 1) ys)
  | inl e ↦ elim (Bool-cases (i == j)) [
    | inr f ↦ rw (e, f) (count-places_one j label (i + 1) ys)
    | inl f ↦
        let none_later =
          count-none (λ k. k == j) (places label (i + 1) ys)
            (All-imp (λ k. (i + 1 ≤ k) × (k < i + 1 + length ys) × (item (k - (i + 1)) ys ≡ label))
              (λ k. (k == j) ≡ false) (λ k h. ground (arith, f, h.0)) (places label (i + 1) ys)
              (places-All label (i + 1) ys)) in
        rw (e, f) (omega (arith, none_later))
  ]
]

-- The rows of all groups, counted by the keys and by the rows.
abbrev pub group_total : List ℕ → List ℕ → ℕ
group_total y [] = 0
group_total y (key ∷ keys) = count (λ x. x == key) y + group_total y keys

abbrev hits : ℕ → List ℕ → ℕ
hits x [] = 0
hits x (key ∷ keys) = (if x == key then 1 else 0) + hits x keys

hits-none : (x : ℕ) (keys : List ℕ) → All (λ k. x < k) keys → hits x keys ≡ 0
hits-none x [] h = refl
hits-none x (key ∷ keys) h = ground (arith, h.0, hits-none x keys h.1)

hits-one : (x : ℕ) (keys : List ℕ) → IsAscending keys → hits x keys ≤ 1
unfolding IsAscending
hits-one x [] h = omega arith
hits-one x (key ∷ keys) h = elim (Bool-cases (x == key)) [
  | inr e ↦ ground (arith, e, hits-one x keys h.1)
  | inl e ↦
      let same : x ≡ key = ground (arith, e) in
      let none_later =
        hits-none x keys
          (All-imp (λ k. key < k) (λ k. x < k) (λ k l. omega (arith, same, l)) keys h.0) in
      ground (arith, e, none_later)
]

group_total-nil : (keys : List ℕ) → group_total [] keys ≡ 0
group_total-nil [] = refl
group_total-nil (key ∷ keys) = omega (arith, group_total-nil keys)

group_total-cons :
    (x : ℕ) (ys keys : List ℕ) → group_total (x ∷ ys) keys ≡ group_total ys keys + hits x keys
group_total-cons x ys [] = omega arith
group_total-cons x ys (key ∷ keys) = ground (arith, group_total-cons x ys keys)

pub group_total-le : (y keys : List ℕ) → IsAscending keys → group_total y keys ≤ length y
group_total-le [] keys h = omega (arith, group_total-nil keys)
group_total-le (x ∷ ys) keys h =
    omega (arith, group_total-cons x ys keys, group_total-le ys keys h, hits-one x keys h)

module _ (sample : List ℕ → ℕ → List ℕ) (law : IsSampler sample) (n : ℕ) (y : List ℕ) where
  pub group_sample-none :
      (key : ℕ) (p : ℕ → Bool)
      → ((i : ℕ) → i < length y → item i y ≡ key → p i ≡ false)
      → count p (sample (places key 0 y) (sample_size n (length (places key 0 y)) (length y))) ≡ 0
  group_sample-none key p h =
      let none_there = count-none p (places key 0 y) (
        All-imp (λ i. (0 ≤ i) × (i < 0 + length y) × (item (i - 0) y ≡ key)) (λ i. p i ≡ false)
          (λ i m. let e : i - 0 ≡ i = omega arith in h i (omega (arith, m.1)) (rw e at m.2))
          (places key 0 y) (places-All key 0 y)) in
      let few =
        law.without (places key 0 y) (sample_size n (length (places key 0 y)) (length y)) p in
      omega (arith, none_there, few)

  -- A test that only places of one label pass counts in that label's sample.
  pub sample_groups-count :
      (p : ℕ → Bool) (label : ℕ) (keys : List ℕ)
      → IsAscending keys
      → ((i : ℕ) → i < length y → item i y ≢ label → p i ≡ false)
      → count p (sample_groups sample n y keys) ≡ (
          if any_of (λ k. k == label) keys
          then count p
              (sample (places label 0 y) (sample_size n (length (places label 0 y)) (length y)))
          else 0)
  unfolding sample_groups IsAscending
  sample_groups-count p label [] asc h = refl
  sample_groups-count p label (key ∷ keys) asc h =
      let first = sample (places key 0 y) (sample_size n (length (places key 0 y)) (length y)) in
      let both = count-append p first (sample_groups sample n y keys) in
      let rest = sample_groups-count p label keys asc.1 h in
      elim (Bool-cases (key == label)) [
        | inl e ↦
            let same : key ≡ label = ground (arith, e) in
            let later : any_of (λ k. k == label) keys ≡ false =
              any_of-none (λ k. k == label) keys
                (All-imp (λ k. key < k) (λ k. (k == label) ≡ false) (λ k l. ground (arith, same, l))
                  keys asc.0) in
            let rest' = rw later at rest in
            let zero_later : count p first + count p (sample_groups sample n y keys)
                ≡ count p first =
              omega (arith, rest') in
            rw e (
              both
              ∙ zero_later
              ∙ ap
                  (λ k.
                    count p
                      (sample (places k 0 y) (sample_size n (length (places k 0 y)) (length y))))
                  same)
        | inr e ↦
            let none_first =
              group_sample-none key p (λ i inside m. h i inside (λ m'. ground (arith, e, m, m'))) in
            let only_rest : count p first + count p (sample_groups sample n y keys)
                ≡ count p (sample_groups sample n y keys) =
              omega (arith, none_first) in
            rw e (both ∙ only_rest ∙ rest)
      ]
    where
      any_of-none : (q : ℕ → Bool) (ks : List ℕ) → All (λ k. q k ≡ false) ks → any_of q ks ≡ false
      any_of-none q [] none_true = refl
      any_of-none q (k ∷ ks) none_true = ground (arith, none_true.0, any_of-none q ks none_true.1)
