-- ===== src/Labels/Inserts.antt =====
-- INSERT .. ON CONFLICT DO NOTHING, for a list of labels.
use mathlib.Core.List.{append-nil, append_assoc}
use fraud_ml_platform.Shared.{
  ◌≤◌, ◌≡◌, sym, ◌∙◌, ◌≢◌, inl, inr, false, List, [], ◌∷◌, ◌++◌, arith, Bool-cases, length, All,
  All-append,
}
use fraud_ml_platform.Database.{Label}
use fraud_ml_platform.Labels.Simulator.{insert_label, has_label, insert_labels}

-- One transaction, one label.
abbrev pub HasUniqueTransactions : List Label → Type 0
HasUniqueTransactions [] = Unit
HasUniqueTransactions (l ∷ ls) =
    All (λ x. x.transaction_id ≢ l.transaction_id) ls × HasUniqueTransactions ls

HasUniqueTransactions-snoc :
    (labels : List Label) (l : Label)
    → has_label labels l.transaction_id ≡ false
    → HasUniqueTransactions labels
    → HasUniqueTransactions (labels ++ l ∷ [])
HasUniqueTransactions-snoc [] l h u = (tt, tt)
HasUniqueTransactions-snoc (x ∷ xs) l h u = (
  All-append (λ y. y.transaction_id ≢ x.transaction_id) xs (l ∷ []) u.0 (ground arith, tt),
  HasUniqueTransactions-snoc xs l (ground arith) u.1,
)

pub insert_labels-HasUniqueTransactions :
    (labels ls : List Label)
    → HasUniqueTransactions labels
    → HasUniqueTransactions (insert_labels labels ls)
unfolding insert_labels insert_label
insert_labels-HasUniqueTransactions labels [] u = u
insert_labels-HasUniqueTransactions labels (l ∷ ls) u =
    elim (Bool-cases (has_label labels l.transaction_id)) [
      | inl old ↦ rw old (insert_labels-HasUniqueTransactions labels ls u)
      | inr new ↦ rw new (
          insert_labels-HasUniqueTransactions (labels ++ l ∷ []) ls
            (HasUniqueTransactions-snoc labels l new u))
    ]

-- Only rows of the given list are added, behind those that were there.
pub insert_labels-extends :
    (P : Label → Type 0) (labels ls : List Label)
    → All P ls
    → (new : List Label) × (insert_labels labels ls ≡ labels ++ new)
      × (length new ≤ length ls)
      × All P new
unfolding insert_labels insert_label
insert_labels-extends P labels [] h = ([], sym (append-nil labels), omega arith, tt)
insert_labels-extends P labels (l ∷ ls) h = elim (Bool-cases (has_label labels l.transaction_id)) [
  | inl old ↦
      let (new, e, short, all) = insert_labels-extends P labels ls h.1 in
      (new, rw old e, omega arith, all)
  | inr fresh ↦
      let (new, e, short, all) = insert_labels-extends P (labels ++ l ∷ []) ls h.1 in
      (l ∷ new, rw fresh (e ∙ append_assoc labels (l ∷ []) new), omega arith, (h.0, all))
]
