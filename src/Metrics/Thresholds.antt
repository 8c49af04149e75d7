-- ===== src/Metrics/Thresholds.antt =====
-- training/src/evaluate.py: the threshold with the best F1 score, and the two scores at a bound.
-- scikit-learn's precision_recall_curve is a parameter, a curve its three arrays.
use fraud_ml_platform.Shared.{
  ℕ, zero, suc, ◌+◌, Bool, true, false, not, List, [], ◌∷◌, if◌then◌else◌, FloatOps, value_error,
  index_error, Result, ok, raise, ◌>>=◌,
}

pub record Curve (F : Type 0) : Type 0 where
  pub precision : List F
  pub recall : List F
  pub thresholds : List F

-- `xs[:-1]`
abbrev pub drop_last {ℓ} : {A : Type ℓ} → List A → List A
drop_last [] = []
drop_last (x ∷ []) = []
drop_last (x ∷ y ∷ ys) = x ∷ drop_last (y ∷ ys)

-- `xs[i]`
abbrev pub entry {ℓ} : {A : Type ℓ} → ℕ → List A → Result A
entry i [] = raise index_error
entry zero (x ∷ xs) = ok x
entry (suc i) (x ∷ xs) = entry i xs

module _ {F : Type 0} (ops : FloatOps F) where
  abbrev pub is_nan : F → Bool
  is_nan x = not (ops.feq x x)

  -- `np.maximum` of two numbers; a NaN is passed on.
  abbrev pub maximum : F → F → F
  maximum x y = if is_nan x then x else if is_nan y then y else if ops.flt x y then y else x

  -- The literal 1e-9; the quotient is rounded to the same number.
  abbrev pub tiny : F
  tiny = ops.fdiv (ops.of_nat 1) (ops.of_nat 1000000000)

  unfoldable pub f1_scores : List F → List F → List F
  f1_scores (p ∷ ps) (r ∷ rs) =
      ops.fdiv (ops.fmul (ops.fmul (ops.of_nat 2) p) r) (maximum (ops.fadd p r) tiny)
      ∷ f1_scores ps rs
  f1_scores _ _ = []

  -- numpy's order of the candidates for `argmax`: a NaN is above every number, and the first of
  -- equals stays.
  abbrev pub replaces : F → F → Bool
  replaces best x = if is_nan best then false else if is_nan x then true else ops.flt best x

  -- The scan, with the place and the value of the best entry so far, and the place of the next one.
  unfoldable pub argmax_from : ℕ → F → ℕ → List F → ℕ
  argmax_from at best i [] = at
  argmax_from at best i (x ∷ xs) =
      let taken = argmax_from i x (i + 1) xs in
      let kept = argmax_from at best (i + 1) xs in if replaces best x then taken else kept

  -- `np.argmax`
  unfoldable pub argmax : List F → Result ℕ
  argmax [] = raise value_error
  argmax (x ∷ xs) = ok (argmax_from 0 x 1 xs)

  -- `xs.max()`
  unfoldable pub max_of : List F → Result F
  max_of [] = raise value_error
  max_of (x ∷ []) = ok x
  max_of (x ∷ y ∷ ys) = max_of (y ∷ ys) >>= λ m. ok (maximum x m)

  -- `ys[xs >= bound]`
  unfoldable pub masked : F → List F → List F → List F
  masked bound (x ∷ xs) (y ∷ ys) =
      if ops.fle bound x then y ∷ masked bound xs ys else masked bound xs ys
  masked bound _ _ = []

  -- The largest entry, 0.0 if no entry is left.
  abbrev pub max_or_zero : List F → Result F
  max_or_zero [] = ok (ops.of_nat 0)
  max_or_zero (y ∷ ys) = max_of (y ∷ ys)

  module _ (precision_recall_curve : List ℕ → List F → Curve F) where
    unfoldable pub find_optimal_threshold : List ℕ → List F → Result F
    find_optimal_threshold y_true y_prob =
        let curve = precision_recall_curve y_true y_prob in
        argmax (drop_last (f1_scores curve.precision curve.recall)) >>= λ best_idx.
        entry best_idx curve.thresholds

    unfoldable pub recall_at_precision : List ℕ → List F → F → Result F
    recall_at_precision y_true y_prob min_precision =
        let curve = precision_recall_curve y_true y_prob in
        max_or_zero (masked min_precision curve.precision curve.recall)

    unfoldable pub precision_at_recall : List ℕ → List F → F → Result F
    precision_at_recall y_true y_prob min_recall =
        let curve = precision_recall_curve y_true y_prob in
        max_or_zero (masked min_recall curve.recall curve.precision)
