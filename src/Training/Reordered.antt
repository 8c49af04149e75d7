-- ===== src/Training/Reordered.antt =====
-- A column in the order of the times has the texts that it had before.
use mathlib.Core.List.{append_assoc}
use fraud_ml_platform.Shared.{
  ℕ, ◌+◌, String, ◌≡◌, refl, sym, ap, ◌∙◌, inl, inr, Bool, false, ◌||◌, Option, none, some, List,
  [], ◌∷◌, ◌++◌, map, arith, str_eq, ltb, Bool-cases, Option-cases, length, length-append,
}
use fraud_ml_platform.Training.Canonical.{categories-order}
use fraud_ml_platform.Training.Encoder.{Column, has_text, drop_missing, categories}
use fraud_ml_platform.Training.Prepare.{nth, pick, index_rows, row_order}
use fraud_ml_platform.Training.Preprocess.{Row, insert_row, sort_rows}

-- Whether the row at the place has the text.
abbrev has_at : String → Column → ℕ → Bool
has_at c column i = elim (nth i column) [
  | none ↦ false
  | some value ↦ elim value [ some s ↦ str_eq s c | none ↦ false ]
]

pick-none :
    {A : Type 0} (i : ℕ) (idx : List ℕ) (xs : List A)
    → nth i xs ≡ none
    → pick (i ∷ idx) xs ≡ pick idx xs
pick-none i idx xs e = rw (pick, e) refl

pick-some :
    {A : Type 0} (i : ℕ) (idx : List ℕ) (xs : List A) (x : A)
    → nth i xs ≡ some x
    → pick (i ∷ idx) xs ≡ x ∷ pick idx xs
pick-some i idx xs x e = rw (pick, e) refl

has_text-pick :
    (c : String) (column : Column) (i : ℕ) (idx : List ℕ)
    → has_text (drop_missing (pick (i ∷ idx) column)) c
      ≡ (has_at c column i || has_text (drop_missing (pick idx column)) c)
has_text-pick c column i idx = elim (Option-cases (nth i column)) [
  | inl e ↦ rw (pick-none i idx column e, has_at, e) refl
  | inr (value, e) ↦ rw (pick-some i idx column value e, has_at, e) (at_value value)
]
  where
    at_value :
        (value : Option String)
        → has_text (drop_missing (value ∷ pick idx column)) c ≡ (
            (elim value [ some s ↦ str_eq s c | none ↦ false ])
            || has_text (drop_missing (pick idx column)) c)
    at_value none = refl
    at_value (some s) = elim (Bool-cases (str_eq s c)) [ inl h ↦ rw h refl | inr h ↦ rw h refl ]

abbrev has_rows : String → Column → List (Row ℕ) → Bool
has_rows c column rows = has_text (drop_missing (pick (map (λ r. r.content) rows) column)) c

has_rows-insert_row :
    (c : String) (column : Column) (r : Row ℕ) (rows : List (Row ℕ))
    → has_rows c column (insert_row r rows) ≡ (has_at c column r.content || has_rows c column rows)
unfolding insert_row
has_rows-insert_row c column r [] = has_text-pick c column r.content []
has_rows-insert_row c column r (x ∷ rows) =
    let rest = has_rows-insert_row c column r rows in
    let old = has_text-pick c column x.content (map (λ q. q.content) rows) in
    elim (Bool-cases (ltb x.transaction_dt r.transaction_dt)) [
      | inl e ↦
          let moved = has_text-pick c column x.content (map (λ q. q.content) (insert_row r rows)) in
          rw e (
            moved
            ∙ swapped (has_at c column x.content) (has_at c column r.content)
                (has_rows c column rows) (has_rows c column (insert_row r rows))
                (has_rows c column (x ∷ rows)) rest old)
      | inr e ↦ rw e (has_text-pick c column r.content (map (λ q. q.content) (x ∷ rows)))
    ]
  where
    swapped : (a b k new all : Bool) → new ≡ (b || k) → all ≡ (a || k) → (a || new) ≡ (b || all)
    swapped a b k new all h g = ground (arith, h, g)

has_rows-sort_rows :
    (c : String) (column : Column) (rows : List (Row ℕ))
    → has_rows c column (sort_rows rows) ≡ has_rows c column rows
unfolding sort_rows
has_rows-sort_rows c column [] = refl
has_rows-sort_rows c column (r ∷ rows) =
    has_rows-insert_row c column r (sort_rows rows)
    ∙ ap (λ b. has_at c column r.content || b) (has_rows-sort_rows c column rows)
    ∙ sym (has_text-pick c column r.content (map (λ q. q.content) rows))

nth-behind :
    {A : Type 0} (front : List A) (x : A) (xs : List A)
    → nth (length front) (front ++ x ∷ xs) ≡ some x
nth-behind [] x xs = refl
nth-behind (y ∷ front) x xs = nth-behind front x xs

pick-all :
    {A : Type 0} (front xs : List A) (dt : List ℕ)
    → length dt ≡ length xs
    → pick (map (λ r. r.content) (index_rows (length front) dt)) (front ++ xs) ≡ xs
pick-all front [] [] e = refl
pick-all front [] (t ∷ dt) e = absurd (omega (arith, e))
pick-all front (x ∷ xs) [] e = absurd (omega (arith, e))
pick-all front (x ∷ xs) (t ∷ dt) e =
    let longer : length (front ++ x ∷ []) ≡ length front + 1 =
      omega (arith, length-append front (x ∷ [])) in
    let rest = pick-all (front ++ x ∷ []) xs dt (omega (arith, e)) in
    let rest' = rw (longer, append_assoc front (x ∷ []) xs) at rest in
    pick-some (length front) (map (λ r. r.content) (index_rows (length front + 1) dt))
      (front ++ x ∷ xs) x (nth-behind front x xs)
    ∙ ap (λ l. x ∷ l) rest'

-- The categories of a column are those of the column in the order of the times.
pub categories-row_order :
    (column : Column) (dt : List ℕ)
    → length dt ≡ length column
    → categories (pick (row_order dt) column) ≡ categories column
categories-row_order column dt size = categories-order (pick (row_order dt) column) column (λ c.
    has_rows-sort_rows c column (index_rows 0 dt)
    ∙ ap (λ l. has_text (drop_missing l) c) (pick-all [] column dt size))
