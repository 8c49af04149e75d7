-- ===== src/Metrics/Optimum.antt =====
-- What the threshold of training/src/evaluate.py is the best of.
use fraud_ml_platform.Shared.{
  ℕ, zero, suc, ◌+◌, ◌-◌, ◌≤◌, ◌<◌, ◌≡◌, refl, sym, ap, ◌⊎◌, inl, inr, true, false, List, [], ◌∷◌,
  arith, Bool-cases, length, All, FloatOps, ok,
}
use fraud_ml_platform.Metrics.Thresholds.{
  Curve, drop_last, entry, is_nan, f1_scores, replaces, argmax_from, argmax, find_optimal_threshold,
}

-- `<` on floats, NaNs included.
pub record IsStrict {F : Type 0} (ops : FloatOps F) : Type 0 where
  pub irreflexive : (x : F) → ops.flt x x ≡ false
  pub transitive : (x y z : F) → ops.flt x y ≡ true → ops.flt y z ≡ true → ops.flt x z ≡ true
  pub weak :
      (x y z : F)
      → is_nan ops y ≡ false
      → ops.flt x z ≡ true
      → (ops.flt x y ≡ true) ⊎ (ops.flt y z ≡ true)

module _ {F : Type 0} (ops : FloatOps F) (strict : IsStrict ops) where
  -- The scan ends at the entry it starts with, or at a later one that is above it, and no entry is
  -- above the one it ends at.
  record IsBestFrom (start : ℕ) (best : F) (i : ℕ) (xs : List F) : Type 0 where
    pub value : F
    pub place :
        ((argmax_from ops start best i xs ≡ start) × (value ≡ best))
        ⊎ ((k : ℕ) × (argmax_from ops start best i xs ≡ i + k)
            × (entry k xs ≡ ok value)
            × (ops.flt best value ≡ true))
    pub above : All (λ x. ops.flt value x ≡ false) xs
    pub above_best : ops.flt value best ≡ false

  pub not_above : (x y z : F) → ops.flt y z ≡ true → ops.flt x z ≡ false → ops.flt x y ≡ false
  not_above x y z yz xz = elim (Bool-cases (ops.flt x y)) [
    | inl xy ↦ absurd (ground (arith, strict.transitive x y z xy yz, xz))
    | inr e ↦ e
  ]

  not_below : (x y z : F) → ops.flt x y ≡ true → ops.flt x z ≡ false → ops.flt y z ≡ false
  not_below x y z xy xz = elim (Bool-cases (ops.flt y z)) [
    | inl yz ↦ absurd (ground (arith, strict.transitive x y z xy yz, xz))
    | inr e ↦ e
  ]

  argmax_from-IsBestFrom :
      (start : ℕ) (best : F) (i : ℕ) (xs : List F)
      → is_nan ops best ≡ false
      → All (λ x. is_nan ops x ≡ false) xs
      → IsBestFrom start best i xs
  unfolding argmax_from
  argmax_from-IsBestFrom start best i [] nb nx = record {
    value = best;
    place = inl (refl, refl);
    above = tt;
    above_best = strict.irreflexive best;
  }
  argmax_from-IsBestFrom start best i (x ∷ xs) nb nx = elim (Bool-cases (ops.flt best x)) [
    | inl lt ↦
        let taken : replaces ops best x ≡ true = rw (nb, nx.0) lt in
        let h = argmax_from-IsBestFrom i x (i + 1) xs nx.0 nx.1 in
        record {
          value = h.value;
          place = inr (elim h.place [
            | inl (e, v) ↦ (0, rw taken (omega (arith, e)), rw v refl, rw v lt)
            | inr (k, e, at, up) ↦
                (suc k, rw taken (omega (arith, e)), at, strict.transitive best x h.value lt up)
          ]);
          above = (h.above_best, h.above);
          above_best = not_above h.value best x lt h.above_best;
        }
    | inr ge ↦
        let kept : replaces ops best x ≡ false = rw (nb, nx.0) ge in
        let h = argmax_from-IsBestFrom start best (i + 1) xs nb nx.1 in
        record {
          value = h.value;
          place = elim h.place [
            | inl (e, v) ↦ inl (rw kept e, v)
            | inr (k, e, at, up) ↦ inr (suc k, rw kept (omega (arith, e)), at, up)
          ];
          above = (
            elim h.place [
              | inl (_, v) ↦ rw v ge
              | inr (_, _, _, up) ↦ not_below best h.value x up ge
            ],
            h.above,
          );
          above_best = h.above_best;
        }
  ]

-- The curve has a threshold, and one entry more of each score.
pub record IsCurve {F : Type 0} (curve : Curve F) : Type 0 where
  pub some_threshold : 1 ≤ length curve.thresholds
  pub precision_size : length curve.precision ≡ suc (length curve.thresholds)
  pub recall_size : length curve.recall ≡ suc (length curve.thresholds)

-- A threshold of the curve whose F1 score no other one's is above.
pub record IsBest {F : Type 0} (ops : FloatOps F) (curve : Curve F) (threshold : F) : Type 0 where
  pub best_idx : ℕ
  pub f1 : F
  pub of_curve : entry best_idx curve.thresholds ≡ ok threshold
  pub score : entry best_idx (drop_last (f1_scores ops curve.precision curve.recall)) ≡ ok f1
  pub best :
      All (λ g. ops.flt f1 g ≡ false) (drop_last (f1_scores ops curve.precision curve.recall))

length-f1_scores :
    {F : Type 0} (ops : FloatOps F) (ps rs : List F)
    → length ps ≡ length rs
    → length (f1_scores ops ps rs) ≡ length ps
unfolding f1_scores
length-f1_scores ops [] rs e = refl
length-f1_scores ops (p ∷ ps) [] e = absurd (omega (arith, e))
length-f1_scores ops (p ∷ ps) (r ∷ rs) e =
    omega (arith, length-f1_scores ops ps rs (omega (arith, e)))

length-drop_last : {A : Type 0} (xs : List A) → length (drop_last xs) ≡ length xs - 1
length-drop_last [] = refl
length-drop_last (x ∷ []) = refl
length-drop_last (x ∷ y ∷ ys) = omega (arith, length-drop_last (y ∷ ys))

pub entry-less : {A : Type 0} (i : ℕ) (xs : List A) (a : A) → entry i xs ≡ ok a → i < length xs
entry-less i [] a e = absurd (ground (arith, e))
entry-less zero (x ∷ xs) a e = omega arith
entry-less (suc i) (x ∷ xs) a e = omega (arith, entry-less i xs a e)

pub entry-some : {A : Type 0} (i : ℕ) (xs : List A) → i < length xs → (a : A) × (entry i xs ≡ ok a)
entry-some i [] less = absurd (omega (arith, less))
entry-some zero (x ∷ xs) less = (x, refl)
entry-some (suc i) (x ∷ xs) less = entry-some i xs (omega (arith, less))

argmax_complete :
    {F : Type 0} (ops : FloatOps F)
    → IsStrict ops
    → (xs : List F) → 1 ≤ length xs
    → All (λ x. is_nan ops x ≡ false) xs
    → (i : ℕ) × (m : F) × (argmax ops xs ≡ ok i)
      × (entry i xs ≡ ok m)
      × All (λ x. ops.flt m x ≡ false) xs
unfolding argmax
argmax_complete ops strict [] some_x numbers = absurd (omega (arith, some_x))
argmax_complete ops strict (x ∷ xs) some_x numbers =
    let h = argmax_from-IsBestFrom ops strict 0 x 1 xs numbers.0 numbers.1 in
    elim h.place [
      | inl (e, v) ↦ (0, h.value, ap ok e, ap ok (sym v), (h.above_best, h.above))
      | inr (k, e, at, _) ↦ (suc k, h.value, ap ok (omega (arith, e)), at, (h.above_best, h.above))
    ]

-- With the usual laws of `<` on floats, if the library's curve has its sizes and its F1 scores are
-- numbers, then a threshold is found: it is one of the curve's, and no threshold of the curve has an
-- F1 score above its own.
pub find_optimal_threshold-IsBest :
    {F : Type 0} (ops : FloatOps F)
    → IsStrict ops
    → (precision_recall_curve : List ℕ → List F → Curve F) (y_true : List ℕ) (y_prob : List F)
    → IsCurve (precision_recall_curve y_true y_prob)
    → All
        (λ x. is_nan ops x ≡ false)
        (drop_last (
          f1_scores ops
            (precision_recall_curve y_true y_prob).precision
            (precision_recall_curve y_true y_prob).recall))
    → (threshold : F) × (find_optimal_threshold ops precision_recall_curve y_true y_prob
        ≡ ok threshold)
      × IsBest ops (precision_recall_curve y_true y_prob) threshold
unfolding find_optimal_threshold
find_optimal_threshold-IsBest ops strict precision_recall_curve y_true y_prob sizes numbers =
    let curve = precision_recall_curve y_true y_prob in
    let f1s = f1_scores ops curve.precision curve.recall in
    let size =
      length-f1_scores ops curve.precision curve.recall
        (omega (arith, sizes.precision_size, sizes.recall_size)) in
    let size' = length-drop_last f1s in
    let (i, m, found, at, best) =
      argmax_complete ops strict (drop_last f1s)
        (omega (arith, size, size', sizes.some_threshold, sizes.precision_size)) numbers in
    let (threshold, of_curve) =
      entry-some i curve.thresholds
        (omega (arith, size, size', sizes.precision_size, entry-less i (drop_last f1s) m at)) in
    (
      threshold,
      rw found of_curve,
      record { best_idx = i; f1 = m; of_curve = of_curve; score = at; best = best },
    )
