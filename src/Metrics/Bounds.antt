-- ===== src/Metrics/Bounds.antt =====
-- What the scores at a bound of training/src/evaluate.py are the largest of.
use mathlib.Core.List.{Memᴰ}
use mathlib.Core.List.Memᴰ
use fraud_ml_platform.Shared.{
  ℕ, zero, suc, ◌≡◌, refl, sym, ap, subst, ◌⊎◌, inl, inr, true, false, List, [], ◌∷◌, arith,
  Bool-cases, length, All, All-imp, FloatOps, ok,
}
use fraud_ml_platform.Metrics.Optimum.{IsStrict, not_above, IsCurve, entry-less, entry-some}
use fraud_ml_platform.Metrics.Thresholds.{
  Curve, entry, is_nan, max_of, masked, max_or_zero, recall_at_precision, precision_at_recall,
}

-- The largest `y` whose `x` is at least the bound, at the same place; 0.0 if there is none.
pub record IsLargest {F : Type 0} (ops : FloatOps F) (bound : F) (xs ys : List F) (result : F)
    : Type 0 where
  pub reached :
      ((i : ℕ) × (x : F) × (entry i xs ≡ ok x)
        × (ops.fle bound x ≡ true)
        × (entry i ys ≡ ok result))
      ⊎ (((i : ℕ) (x : F) → entry i xs ≡ ok x → ops.fle bound x ≡ false) × (result ≡ ops.of_nat 0))
  pub largest :
      (i : ℕ) (x y : F)
      → entry i xs ≡ ok x
      → entry i ys ≡ ok y
      → ops.fle bound x ≡ true
      → ops.flt result y ≡ false

module _ {F : Type 0} (ops : FloatOps F) (strict : IsStrict ops) where
  max_of_complete :
      (y : F) (ys : List F)
      → All (λ x. is_nan ops x ≡ false) (y ∷ ys)
      → (m : F) × (max_of ops (y ∷ ys) ≡ ok m)
        × Memᴰ m (y ∷ ys)
        × All (λ x. ops.flt m x ≡ false) (y ∷ ys)
  unfolding max_of
  max_of_complete y [] numbers = (y, refl, Memᴰ.head refl, (strict.irreflexive y, tt))
  max_of_complete y (z ∷ zs) numbers =
      let (m, e, inside, above) = max_of_complete z zs numbers.1 in
      let m_number = All-Memᴰ_at m (z ∷ zs) inside numbers.1 in
      elim (Bool-cases (ops.flt y m)) [
        | inl lt ↦ (
          m,
          rw e (ap ok (rw (numbers.0, m_number, lt) refl)),
          Memᴰ.tail inside,
          (not_above ops strict m y m lt (strict.irreflexive m), above),
        )
        | inr ge ↦ (
          y,
          rw e (ap ok (rw (numbers.0, m_number, ge) refl)),
          Memᴰ.head refl,
          (
            strict.irreflexive y,
            All-imp (λ x. ops.flt m x ≡ false) (λ x. ops.flt y x ≡ false)
                (λ x h. above_all y m x m_number ge h) (z ∷ zs) above,
          ),
        )
      ]
    where
      above_all :
          (y m x : F)
          → is_nan ops m ≡ false
          → ops.flt y m ≡ false
          → ops.flt m x ≡ false
          → ops.flt y x ≡ false
      above_all y m x number ym mx = elim (Bool-cases (ops.flt y x)) [
        | inl yx ↦ elim (strict.weak y m x number yx) [
          | inl a ↦ absurd (ground (arith, a, ym))
          | inr b ↦ absurd (ground (arith, b, mx))
        ]
        | inr e ↦ e
      ]

      All-Memᴰ_at :
          (m : F) (xs : List F)
          → Memᴰ m xs
          → All (λ x. is_nan ops x ≡ false) xs
          → is_nan ops m ≡ false
      All-Memᴰ_at m [] i h = elim i [ ]
      All-Memᴰ_at m (x ∷ xs) (Memᴰ.head e) h = rw e h.0
      All-Memᴰ_at m (x ∷ xs) (Memᴰ.tail i) h = All-Memᴰ_at m xs i h.1

-- An entry of the masked array is an entry of the whole one at a place that meets the bound, and
-- every such entry is one.
masked_sound :
    {F : Type 0} (ops : FloatOps F) (bound : F) (xs ys : List F) (y : F)
    → Memᴰ y (masked ops bound xs ys)
    → (i : ℕ) × (x : F) × (entry i xs ≡ ok x) × (ops.fle bound x ≡ true) × (entry i ys ≡ ok y)
unfolding masked
masked_sound ops bound [] ys y m = elim m [ ]
masked_sound ops bound (x ∷ xs) [] y m = elim m [ ]
masked_sound ops bound (x ∷ xs) (z ∷ ys) y m = elim (Bool-cases (ops.fle bound x)) [
  | inl e ↦ elim (Memᴰ.cases_cons (rw e at m)) [
    | inl same ↦ (0, x, refl, e, ap ok (sym same))
    | inr later ↦
        let (i, x', at, h, at') = masked_sound ops bound xs ys y later in (suc i, x', at, h, at')
  ]
  | inr e ↦
      let (i, x', at, h, at') = masked_sound ops bound xs ys y (rw e at m) in
      (suc i, x', at, h, at')
]

masked_complete :
    {F : Type 0} (ops : FloatOps F) (bound : F) (xs ys : List F) (P : F → Type 0)
    → All P (masked ops bound xs ys)
    → (i : ℕ) (x y : F) → entry i xs ≡ ok x
    → entry i ys ≡ ok y
    → ops.fle bound x ≡ true
    → P y
unfolding masked
masked_complete ops bound [] ys P all i x y ex ey h = absurd (ground (arith, ex))
masked_complete ops bound (x ∷ xs) [] P all i x' y ex ey h = absurd (ground (arith, ey))
masked_complete ops bound (x ∷ xs) (z ∷ ys) P all zero x' y ex ey h =
    let same : ops.fle bound x ≡ true = ground (arith, ex, h) in
    let same' : z ≡ y = ground (arith, ey) in subst P same' (rw same at all).0
masked_complete ops bound (x ∷ xs) (z ∷ ys) P all (suc i) x' y ex ey h =
    masked_complete ops bound xs ys P
      (elim (Bool-cases (ops.fle bound x)) [ inl e ↦ (rw e at all).1 | inr e ↦ rw e at all ]) i x' y
      ex ey h

-- The largest of the masked entries, in the two cases of the code.
max_or_zero-IsLargest :
    {F : Type 0} (ops : FloatOps F)
    → IsStrict ops
    → (bound : F) (xs ys : List F) → length xs ≡ length ys
    → All (λ y. is_nan ops y ≡ false) (masked ops bound xs ys)
    → (result : F) × (max_or_zero ops (masked ops bound xs ys) ≡ ok result)
      × IsLargest ops bound xs ys result
max_or_zero-IsLargest {F = F} ops strict bound xs ys sizes numbers =
    cases (masked ops bound xs ys) refl numbers
  where
    cases :
        (kept : List F)
        → masked ops bound xs ys ≡ kept
        → All (λ y. is_nan ops y ≡ false) kept
        → (result : F) × (max_or_zero ops kept ≡ ok result) × IsLargest ops bound xs ys result
    cases [] none_kept h = (
      ops.of_nat 0,
      refl,
      record {
        reached = inr (
          (λ i x at. elim (Bool-cases (ops.fle bound x)) [
            | inl e ↦
                let (y, at') = entry-some i ys (omega (arith, sizes, entry-less i xs x at)) in
                absurd (
                  masked_complete ops bound xs ys (λ _. ⊥) (subst (All (λ _. ⊥)) (sym none_kept) tt)
                    i x y at at' e)
            | inr e ↦ e
          ]),
          refl,
        );
        largest = λ i x y at at' e. absurd (
            masked_complete ops bound xs ys (λ _. ⊥) (subst (All (λ _. ⊥)) (sym none_kept) tt) i x y
              at at' e);
      },
    )
    cases (y ∷ kept) some_kept h =
        let (m, e, inside, above) = max_of_complete ops strict y kept h in
        (
          m,
          e,
          record {
            reached = inl (masked_sound ops bound xs ys m (subst (Memᴰ m) (sym some_kept) inside));
            largest =
                masked_complete ops bound xs ys (λ z. ops.flt m z ≡ false)
                  (subst (All (λ z. ops.flt m z ≡ false)) (sym some_kept) above);
          },
        )

-- If the library's curve has its sizes and its scores are numbers, then the recall at a precision is
-- found: it is the largest recall among the places of the curve with that precision or more, and 0.0
-- if there is no such place.
pub recall_at_precision-IsLargest :
    {F : Type 0} (ops : FloatOps F)
    → IsStrict ops
    → (precision_recall_curve : List ℕ → List F → Curve F) (y_true : List ℕ) (y_prob : List F)
    → IsCurve (precision_recall_curve y_true y_prob)
    → (min_precision : F)
    → All
        (λ y. is_nan ops y ≡ false)
        (masked ops min_precision
          (precision_recall_curve y_true y_prob).precision
          (precision_recall_curve y_true y_prob).recall)
    → (result : F) × (recall_at_precision ops precision_recall_curve y_true y_prob min_precision
        ≡ ok result)
      × IsLargest ops min_precision
          (precision_recall_curve y_true y_prob).precision
          (precision_recall_curve y_true y_prob).recall
          result
unfolding recall_at_precision
recall_at_precision-IsLargest ops strict precision_recall_curve y_true y_prob sizes bound numbers =
    let curve = precision_recall_curve y_true y_prob in
    max_or_zero-IsLargest ops strict bound curve.precision curve.recall
      (omega (arith, sizes.precision_size, sizes.recall_size)) numbers

-- The same of the precision at a recall.
precision_at_recall-IsLargest :
    {F : Type 0} (ops : FloatOps F)
    → IsStrict ops
    → (precision_recall_curve : List ℕ → List F → Curve F) (y_true : List ℕ) (y_prob : List F)
    → IsCurve (precision_recall_curve y_true y_prob)
    → (min_recall : F)
    → All
        (λ y. is_nan ops y ≡ false)
        (masked ops min_recall
          (precision_recall_curve y_true y_prob).recall
          (precision_recall_curve y_true y_prob).precision)
    → (result : F) × (precision_at_recall ops precision_recall_curve y_true y_prob min_recall
        ≡ ok result)
      × IsLargest ops min_recall
          (precision_recall_curve y_true y_prob).recall
          (precision_recall_curve y_true y_prob).precision
          result
unfolding precision_at_recall
precision_at_recall-IsLargest ops strict precision_recall_curve y_true y_prob sizes bound numbers =
    let curve = precision_recall_curve y_true y_prob in
    max_or_zero-IsLargest ops strict bound curve.recall curve.precision
      (omega (arith, sizes.precision_size, sizes.recall_size)) numbers
