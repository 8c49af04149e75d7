-- ===== src/Shadow/Confusion.antt =====
-- The numbers of a summary.
use fraud_ml_platform.Shared.{◌+◌, ◌≡◌, refl, List, [], ◌∷◌, arith, length}
use fraud_ml_platform.Shadow.Comparator.{Comparison, Confusion, count_if, differ, confusion_of}

module _ {F : Type 0} where
  -- The four counts split the rows, and each column and row of the matrix is a count of flags.
  pub record IsConfusion (rows : List (Comparison F)) (c : Confusion) : Type 0 where
    pub total : c.tp + c.fp + c.fn + c.tn ≡ length rows
    pub champion : c.tp + c.fn ≡ count_if (λ r. r.champion_flagged) rows
    pub challenger : c.tp + c.fp ≡ count_if (λ r. r.challenger_flagged) rows
    pub disagreement : c.fp + c.fn ≡ count_if differ rows

  pub confusion_of-IsConfusion : (rows : List (Comparison F)) → IsConfusion rows (confusion_of rows)
  unfolding confusion_of
  confusion_of-IsConfusion [] = record {
    total = refl;
    champion = refl;
    challenger = refl;
    disagreement = refl;
  }
  confusion_of-IsConfusion (r ∷ rows) =
      let h = confusion_of-IsConfusion rows in
      record {
        total = ground (arith, h.total);
        champion = ground (arith, h.champion);
        challenger = ground (arith, h.challenger);
        disagreement = ground (arith, h.disagreement);
      }
