-- ===== src/Training/Separation.antt =====
-- The train rows and the test rows.
use mathlib.Core.List.{Perm}
use mathlib.Core.List.Perm
use fraud_ml_platform.Shared.{
  ℕ, zero, suc, ◌*◌, ◌/◌, ◌≤◌, ◌<◌, ◌≡◌, refl, sym, subst, inl, inr, true, none, some, List, [],
  ◌∷◌, ◌++◌, arith, ltb, Bool-cases, Option-cases, length, take, drop, All, length-take, All-imp,
  ok,
}
use fraud_ml_platform.Training.Preprocess.{
  Row, is_before, insert_row, sort_rows, max_dt, min_dt, temporal_split,
}

module _ {A : Type 0} where
  max_dt-none : (rs : List (Row A)) → max_dt rs ≡ none → rs ≡ []
  max_dt-none [] h = refl
  max_dt-none (r ∷ rs) h = elim (Option-cases (max_dt rs)) [
    | inl e ↦ absurd (ground (arith, h, e))
    | inr (m, e) ↦ absurd (ground (arith, h, e))
  ]

  max_dt-bound :
      (rs : List (Row A)) (m : ℕ) → max_dt rs ≡ some m → All (λ r. r.transaction_dt ≤ m) rs
  max_dt-bound [] m h = tt
  max_dt-bound (r ∷ rs) m h = elim (Option-cases (max_dt rs)) [
    | inl e ↦
        (ground (arith, h, e), subst (All (λ x. x.transaction_dt ≤ m)) (sym (max_dt-none rs e)) tt)
    | inr (k, e) ↦ (
      ground (arith, h, e),
      All-imp (λ x. x.transaction_dt ≤ k) (λ x. x.transaction_dt ≤ m)
          (λ x l. ground (arith, h, e, l)) rs (max_dt-bound rs k e),
    )
  ]

  min_dt-none : (rs : List (Row A)) → min_dt rs ≡ none → rs ≡ []
  min_dt-none [] h = refl
  min_dt-none (r ∷ rs) h = elim (Option-cases (min_dt rs)) [
    | inl e ↦ absurd (ground (arith, h, e))
    | inr (m, e) ↦ absurd (ground (arith, h, e))
  ]

  min_dt-bound :
      (rs : List (Row A)) (m : ℕ) → min_dt rs ≡ some m → All (λ r. m ≤ r.transaction_dt) rs
  min_dt-bound [] m h = tt
  min_dt-bound (r ∷ rs) m h = elim (Option-cases (min_dt rs)) [
    | inl e ↦
        (ground (arith, h, e), subst (All (λ x. m ≤ x.transaction_dt)) (sym (min_dt-none rs e)) tt)
    | inr (k, e) ↦ (
      ground (arith, h, e),
      All-imp (λ x. k ≤ x.transaction_dt) (λ x. m ≤ x.transaction_dt)
          (λ x l. ground (arith, h, e, l)) rs (min_dt-bound rs k e),
    )
  ]

  insert_row-perm : (r : Row A) (rs : List (Row A)) → Perm (insert_row r rs) (r ∷ rs)
  unfolding insert_row
  insert_row-perm r [] = Perm.rfl
  insert_row-perm r (x ∷ xs) = elim (Bool-cases (ltb x.transaction_dt r.transaction_dt)) [
    | inl e ↦ rw e (Perm.trans (Perm.cons x (insert_row-perm r xs)) (Perm.swap r x xs))
    | inr e ↦ rw e Perm.rfl
  ]

  pub sort_rows-perm : (rs : List (Row A)) → Perm (sort_rows rs) rs
  unfolding sort_rows
  sort_rows-perm [] = Perm.rfl
  sort_rows-perm (r ∷ rs) =
      Perm.trans (insert_row-perm r (sort_rows rs)) (Perm.cons r (sort_rows-perm rs))

  insert_row-length : (r : Row A) (rs : List (Row A)) → length (insert_row r rs) ≡ suc (length rs)
  unfolding insert_row
  insert_row-length r [] = refl
  insert_row-length r (x ∷ xs) = ground (arith, insert_row-length r xs)

  pub sort_rows-length : (rs : List (Row A)) → length (sort_rows rs) ≡ length rs
  unfolding sort_rows
  sort_rows-length [] = refl
  sort_rows-length (r ∷ rs) = omega (arith, insert_row-length r (sort_rows rs), sort_rows-length rs)

  -- A split of the given rows: nothing is lost, four fifths are for training, and every train row is
  -- strictly before every test row.
  pub record IsSeparated (rows train_rows test_rows : List (Row A)) : Type 0 where
    pub same : Perm (train_rows ++ test_rows) rows
    pub size : length train_rows ≡ length rows * 4 / 5
    pub before : All (λ t. All (λ r. r.transaction_dt < t.transaction_dt) train_rows) test_rows

  is_before-separates :
      (train_rows test_rows : List (Row A))
      → is_before (max_dt train_rows) (min_dt test_rows) ≡ true
      → All (λ t. All (λ r. r.transaction_dt < t.transaction_dt) train_rows) test_rows
  is_before-separates train_rows test_rows h = elim (Option-cases (max_dt train_rows)) [
    | inl e ↦ absurd (ground (arith, h, e))
    | inr (m, e) ↦ elim (Option-cases (min_dt test_rows)) [
      | inl f ↦ absurd (ground (arith, h, e, f))
      | inr (k, f) ↦
          All-imp (λ t. k ≤ t.transaction_dt)
            (λ t. All (λ r. r.transaction_dt < t.transaction_dt) train_rows)
            (λ t l.
              All-imp (λ r. r.transaction_dt ≤ m) (λ r. r.transaction_dt < t.transaction_dt)
                (λ r q. ground (arith, h, e, f, l, q)) train_rows (max_dt-bound train_rows m e))
            test_rows (min_dt-bound test_rows k f)
    ]
  ]

  take-drop : (n : ℕ) (rs : List (Row A)) → take n rs ++ drop n rs ≡ rs
  take-drop zero rs = refl
  take-drop (suc n) [] = refl
  take-drop (suc n) (r ∷ rs) = rw (take-drop n rs) refl

  -- If preprocessing passes its assertion, its train and test rows are the given rows, the train rows
  -- are the stated share, and no train row is as late as a test row.
  pub temporal_split-IsSeparated :
      (rows train_rows test_rows : List (Row A))
      → temporal_split rows ≡ ok (train_rows, test_rows)
      → IsSeparated rows train_rows test_rows
  unfolding temporal_split
  temporal_split-IsSeparated rows train_rows test_rows h =
      let sorted = sort_rows rows in
      let n = length sorted * 4 / 5 in
      elim (Bool-cases (is_before (max_dt (take n sorted)) (min_dt (drop n sorted)))) [
        | inr e ↦ absurd (ground (arith, h, e))
        | inl e ↦
            let first : take n sorted ≡ train_rows = ground (arith, h, e) in
            let second : drop n sorted ≡ test_rows = ground (arith, h, e) in
            subst (λ l. IsSeparated rows l test_rows) first
              (subst (λ l. IsSeparated rows (take n sorted) l) second
                (record {
                  same = subst (λ l. Perm l rows) (sym (take-drop n sorted)) (sort_rows-perm rows);
                  size = omega (arith, length-take n sorted, sort_rows-length rows);
                  before = is_before-separates (take n sorted) (drop n sorted) e;
                }))
      ]
