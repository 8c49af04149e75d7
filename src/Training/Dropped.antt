-- ===== src/Training/Dropped.antt =====
-- Which features the adversarial validation drops.
use fraud_ml_platform.Shared.{
  ℕ, zero, suc, String, ◌≡◌, refl, sym, ap, ◌∙◌, ◌⊎◌, inl, inr, true, false, not, ◌||◌, none, some,
  List, [], ◌∷◌, ◌++◌, map, arith, str_eq, str_eq_iff, Bool-cases, take, keep_if, FloatOps,
}
use fraud_ml_platform.Training.Adversarial.{
  FoldResult, no_importances, add_gain, sum_folds, run_adversarial_validation, adversarial_main,
}
use fraud_ml_platform.Training.Champions.{contains-keep_if}
use fraud_ml_platform.Training.Selection.{
  contains, exclude_from_features, encoded_name, is_raw, use_cols, prune_features,
}

names : {A : Type 0} → List (String × A) → List String
names is = map (λ i. i.0) is

names-map :
    {A : Type 0} (f : String × A → A) (is : List (String × A))
    → names (map (λ i. (i.0, f i)) is) ≡ names is
unfolding names
names-map f [] = refl
names-map f (i ∷ is) = ap (λ l. i.0 ∷ l) (names-map f is)

contains-append :
    (c : String) (xs ys : List String) → contains c (xs ++ ys) ≡ (contains c xs || contains c ys)
contains-append c [] ys = refl
contains-append c (x ∷ xs) ys = ground (arith, contains-append c xs ys)

contains-take :
    (c : String) (n : ℕ) (xs : List String) → contains c (take n xs) ≡ true → contains c xs ≡ true
contains-take c zero xs h = absurd (ground (arith, h))
contains-take c (suc n) [] h = h
contains-take c (suc n) (x ∷ xs) h = elim (Bool-cases (str_eq x c)) [
  | inl e ↦ ground (arith, e)
  | inr e ↦ ground (arith, e, contains-take c n xs (ground (arith, e, h)))
]

module _ {F : Type 0} (ops : FloatOps F) where
  sum_folds-names :
      (folds : List (FoldResult F)) (aucs : List F) (importances : List (String × F))
      → names (sum_folds ops folds aucs importances).1 ≡ names importances
  unfolding sum_folds add_gain
  sum_folds-names [] aucs importances = refl
  sum_folds-names (f ∷ folds) aucs importances =
      sum_folds-names folds (aucs ++ f.auc ∷ []) (add_gain ops f.gain importances)
      ∙ names-map (λ i. ops.fadd i.1 (elim (f.gain i.0) [ some g ↦ g | none ↦ ops.of_nat 0 ]))
          importances

  no_importances-names : (cols : List String) → names (no_importances ops cols) ≡ cols
  unfolding names
  no_importances-names [] = refl
  no_importances-names (c ∷ cols) = ap (λ l. c ∷ l) (no_importances-names cols)

  -- A sort that keeps the names drops only columns of `use_cols`.
  adversarial-names :
      (mean : List F → F) (sort_values : List (String × F) → List (String × F))
      (run_folds : List String → List (FoldResult F)) (columns : List String) (n_splits : ℕ)
      → ((is : List (String × F)) (c : String)
          → contains c (map (λ i. i.0) (sort_values is)) ≡ contains c (map (λ i. i.0) is))
      → (c : String)
      → contains c (
          map
            (λ i. i.0)
            (run_adversarial_validation ops mean sort_values run_folds columns n_splits).1)
        ≡ contains c (use_cols columns)
  unfolding run_adversarial_validation names
  adversarial-names mean sort_values run_folds columns n_splits sorted c =
      let cols = use_cols columns in
      let summed = (sum_folds ops (run_folds cols) [] (no_importances ops cols)).1 in
      sorted (map (λ i. (i.0, ops.fdiv i.1 (ops.of_nat n_splits))) summed) c
      ∙ ap (contains c) (
          names-map (λ i. ops.fdiv i.1 (ops.of_nat n_splits)) summed
          ∙ sum_folds-names (run_folds cols) [] (no_importances ops cols)
          ∙ no_importances-names cols)

-- A column of the validation is not excluded, or has the ending.
use_cols-cases :
    (columns : List String) (c : String)
    → contains c (use_cols columns) ≡ true
    → (contains c columns ≡ true)
      × ((contains c exclude_from_features ≡ false) ⊎ ((base : String) × (c ≡ encoded_name base)))
unfolding use_cols
use_cols-cases columns c h =
    let raw = keep_if is_raw columns in
    let plain_test = λ (x : String). not (contains (encoded_name x) columns) in
    let encoded_test = λ (x : String). contains (encoded_name x) columns in
    let parts =
      contains-append c (keep_if plain_test raw) (map encoded_name (keep_if encoded_test raw)) in
    elim (Bool-cases (contains c (keep_if plain_test raw))) [
      | inl e ↦
          let kept = contains-keep_if c plain_test raw in
          let kept' = contains-keep_if c is_raw columns in
          (ground (arith, e, kept, kept'), inl (ground (arith, e, kept, kept')))
      | inr e ↦
          let (base, same, there) = encoded_of raw (ground (arith, h, parts, e)) in
          (rw same there, inr (base, same))
    ]
  where
    encoded_of :
        (raw : List String)
        → contains c (map encoded_name (keep_if (λ x. contains (encoded_name x) columns) raw))
          ≡ true
        → (base : String) × (c ≡ encoded_name base) × (contains (encoded_name base) columns ≡ true)
    encoded_of [] k = absurd (ground (arith, k))
    encoded_of (x ∷ raw) k = elim (Bool-cases (contains (encoded_name x) columns)) [
      | inr e ↦ encoded_of raw (rw e at k)
      | inl e ↦ elim (Bool-cases (str_eq (encoded_name x) c)) [
        | inl s ↦ (x, sym ((str_eq_iff (encoded_name x) c).0 s), e)
        | inr n ↦ encoded_of raw (ground (arith, rw e at k, n))
      ]
    ]

-- With a sort that keeps the names, a feature of the list that does not stay is a column of the train
-- table, and either is no excluded one or is an encoded column.
adversarial_main-drops :
    {F : Type 0} (ops : FloatOps F) (mean : List F → F)
    (sort_values : List (String × F) → List (String × F))
    (run_folds : List String → List (FoldResult F)) (columns all_features : List String)
    → ((is : List (String × F)) (c : String)
        → contains c (map (λ i. i.0) (sort_values is)) ≡ contains c (map (λ i. i.0) is))
    → (c : String) → contains c all_features ≡ true
    → let files = adversarial_main ops mean sort_values run_folds columns all_features in
      (contains c files.pruned_features ≡ true)
      ⊎ ((contains c columns ≡ true)
          × ((contains c exclude_from_features ≡ false)
              ⊎ ((base : String) × (c ≡ encoded_name base))))
unfolding adversarial_main prune_features
adversarial_main-drops ops mean sort_values run_folds columns all_features sorted c there =
    let importances = (run_adversarial_validation ops mean sort_values run_folds columns 5).1 in
    let ranked = map (λ i. i.0) importances in
    let kept = contains-keep_if c (λ f. not (contains f (take 10 ranked))) all_features in
    elim (Bool-cases (contains c (take 10 ranked))) [
      | inr e ↦ inl (kept ∙ rw (there, e) refl)
      | inl e ↦
          let used = adversarial-names ops mean sort_values run_folds columns 5 sorted c in
          inr (use_cols-cases columns c (sym used ∙ contains-take c 10 ranked e))
    ]
