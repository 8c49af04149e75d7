-- ===== src/Drift/Edges.antt =====
-- The bin edges of PSI.
use fraud_ml_platform.Shared.{
  ℕ, ◌+◌, ◌≤◌, ◌≡◌, refl, ◌∙◌, false, Option, none, some, List, [], ◌∷◌, arith, ltb, length,
  FloatOps,
}
use fraud_ml_platform.Drift.Detectors.{Numpy, map_last, map_first, min_f, max_f, widen_edges}

module _ {A : Type 0} where
  abbrev pub first : List A → Option A
  first [] = none
  first (x ∷ xs) = some x

  abbrev pub last : List A → Option A
  last [] = none
  last (x ∷ []) = some x
  last (x ∷ y ∷ xs) = last (y ∷ xs)

  last-map_last :
      (f : A → A) (x : A) (xs : List A) → (y : A) × (last (map_last f (x ∷ xs)) ≡ some (f y))
  last-map_last f x [] = (x, refl)
  last-map_last f x (y ∷ []) = (y, refl)
  last-map_last f x (y ∷ z ∷ xs) = last-map_last f y (z ∷ xs)

  last-cons :
      (f : A → A) (a x : A) (xs : List A)
      → last (a ∷ map_last f (x ∷ xs)) ≡ last (map_last f (x ∷ xs))
  last-cons f a x [] = refl
  last-cons f a x (y ∷ xs) = refl

  length-map_last : (f : A → A) (xs : List A) → length (map_last f xs) ≡ length xs
  length-map_last f [] = refl
  length-map_last f (x ∷ []) = refl
  length-map_last f (x ∷ y ∷ xs) = omega (arith, length-map_last f (y ∷ xs))

-- `numpy.linspace`: so many values, from the start to the stop.
abbrev pub IsLinspace : {F : Type 0} → (F → F → ℕ → List F) → Type 0
IsLinspace {F} linspace =
    (lo hi : F) (n : ℕ)
    → 2 ≤ n
    → (first (linspace lo hi n) ≡ some lo)
      × (last (linspace lo hi n) ≡ some hi)
      × (length (linspace lo hi n) ≡ n)

-- There are at least two edges, none of [0, 1] lies before the first one or behind the last one.
pub record IsCovering {F : Type 0} (ops : FloatOps F) (edges : List F) : Type 0 where
  pub low : F
  pub high : F
  pub is_first : first edges ≡ some low
  pub is_last : last edges ≡ some high
  pub low_bound : ops.flt (ops.of_nat 0) low ≡ false
  pub high_bound : ops.flt high (ops.of_nat 1) ≡ false
  pub count : 2 ≤ length edges

module _ {F : Type 0} (ops : FloatOps F) (np : Numpy F)
    (irreflexive : (n : ℕ) → ops.flt (ops.of_nat n) (ops.of_nat n) ≡ false)
    (linspace_law : IsLinspace np.linspace) where
  min_f-bound : (x : F) → ops.flt (ops.of_nat 0) (min_f ops np x (ops.of_nat 0)) ≡ false
  min_f-bound x = ground (arith, irreflexive 0)

  max_f-bound : (x : F) → ops.flt (max_f ops np x (ops.of_nat 1)) (ops.of_nat 1) ≡ false
  max_f-bound x = ground (arith, irreflexive 1)

  wide-IsCovering :
      (x y : F) (xs : List F)
      → IsCovering ops (
          map_last
            (λ e. max_f ops np e (ops.of_nat 1))
            (map_first (λ e. min_f ops np e (ops.of_nat 0)) (x ∷ y ∷ xs)))
  wide-IsCovering x y xs =
      let low = min_f ops np x (ops.of_nat 0) in
      let (z, e) = last-map_last (λ e. max_f ops np e (ops.of_nat 1)) y xs in
      record {
        low = low;
        high = max_f ops np z (ops.of_nat 1);
        is_first = refl;
        is_last = last-cons (λ e. max_f ops np e (ops.of_nat 1)) low y xs ∙ e;
        low_bound = min_f-bound x;
        high_bound = max_f-bound z;
        count = omega (arith, length-map_last (λ e. max_f ops np e (ops.of_nat 1)) (low ∷ y ∷ xs));
      }

  -- The edges of a positive number of bins cover [0, 1], whatever the quantiles are: there are at
  -- least two, the first not after 0 and the last not before 1. A number is not before itself, and
  -- linspace keeps what numpy documents of it.
  pub widen_edges-IsCovering :
      (n_bins : ℕ) (edges : List F) → 1 ≤ n_bins → IsCovering ops (widen_edges ops np n_bins edges)
  unfolding widen_edges
  widen_edges-IsCovering n_bins (x ∷ y ∷ xs) h =
      let enough : ltb (length (x ∷ y ∷ xs)) 2 ≡ false = ground arith in
      rw enough (wide-IsCovering x y xs)
  widen_edges-IsCovering n_bins [] h = narrow n_bins h
    where
      narrow : (n : ℕ) → 1 ≤ n → IsCovering ops (np.linspace (ops.of_nat 0) (ops.of_nat 1) (n + 1))
      narrow n h =
          let (a, b, c) = linspace_law (ops.of_nat 0) (ops.of_nat 1) (n + 1) (omega arith) in
          record {
            low = ops.of_nat 0;
            high = ops.of_nat 1;
            is_first = a;
            is_last = b;
            low_bound = irreflexive 0;
            high_bound = irreflexive 1;
            count = omega (arith, c);
          }
  widen_edges-IsCovering n_bins (x ∷ []) h = widen_edges-IsCovering n_bins [] h
