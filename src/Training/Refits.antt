-- ===== src/Training/Refits.antt =====
-- A table with categorical columns, encoded and encoded again.
use fraud_ml_platform.Shared.{
  ℕ, String, ◌≡◌, refl, none, some, List, [], ◌∷◌, arith, str_eq_iff, pos, negsuc,
}
use fraud_ml_platform.Training.Categoricals.{
  TableColumn, categorical, plain, codes_of, unchanged, last_place, code, encode_new,
  encode_categoricals, HasDistinctColumns,
}

abbrev table : List (String × TableColumn ℕ)
table =
    ("card", categorical ("amex" ∷ "visa" ∷ []) (some "visa" ∷ none ∷ some "amex" ∷ []))
    ∷ ("amount", plain (10 ∷ 20 ∷ 30 ∷ []))
    ∷ []

table_codes : encode_categoricals table none ≡ (
  ("card", codes_of (pos 1 ∷ negsuc 0 ∷ pos 0 ∷ []))
      ∷ ("amount", unchanged (10 ∷ 20 ∷ 30 ∷ []))
      ∷ [],
  ("card", "amex" ∷ "visa" ∷ []) ∷ [],
)
unfolding encode_categoricals encode_new code last_place
table_codes = refl

table-HasDistinctColumns : HasDistinctColumns table
table-HasDistinctColumns = ((λ e. ground (arith, e, str_eq_iff "amount" "card"), tt), (tt, tt))
