-- ===== src/Challenger/Reloading.antt =====
-- The tables that the metrics are recomputed on are the ones of the training.
use fraud_ml_platform.Shared.{
  String, ◌≡◌, sym, ap, ◌∙◌, subst, ◌≢◌, inl, inr, none, some, List, [], ◌∷◌, ◌++◌, arith,
  str_eq_iff, Bool-cases, keep_if, All, All-append, All-keep_if_of, All-map, ok, >>=-eq-ok, ok-inj,
}
use fraud_ml_platform.Challenger.Frames.{
  columns, column, select, is_feature, challenger_features, Data, divide, load_data, reload_data,
}
use fraud_ml_platform.Training.Categoricals.{
  TableColumn, Mappings, encode_categoricals, HasDistinctColumns, encode_categoricals-again,
}

abbrev IsDistinct : List String → Type 0
IsDistinct [] = Unit
IsDistinct (name ∷ names) = All (λ n. n ≢ name) names × IsDistinct names

select-columns :
    {A : Type 0} (names : List String) (df part : List (String × A))
    → select names df ≡ ok part
    → columns part ≡ names
unfolding select
select-columns [] df part h = ap columns (sym (ok-inj h))
select-columns (name ∷ names) df part h =
    let (values, _, h') = >>=-eq-ok (column name df) _ h in
    let (rest, e, h'') = >>=-eq-ok (select names df) _ h' in
    let same : (name, values) ∷ rest ≡ part = ok-inj h'' in
    ap columns (sym same) ∙ ap (λ l. name ∷ l) (select-columns names df rest e)

HasDistinctColumns-of_IsDistinct :
    {V : Type 0} (df : List (String × TableColumn V))
    → IsDistinct (columns df)
    → HasDistinctColumns df
HasDistinctColumns-of_IsDistinct [] h = tt
HasDistinctColumns-of_IsDistinct ((col, _) ∷ df) h =
    (All-map (λ n. n ≢ col) (λ c. c.0) df h.0, HasDistinctColumns-of_IsDistinct df h.1)

features-IsDistinct :
    {V : Type 0} (df : List (String × TableColumn V))
    → HasDistinctColumns df
    → IsDistinct (keep_if is_feature (columns df) ++ "isFraud" ∷ [])
features-IsDistinct [] h = (tt, tt)
features-IsDistinct ((col, _) ∷ df) h = elim (Bool-cases (is_feature col)) [
  | inr e ↦ rw e (features-IsDistinct df h.1)
  | inl e ↦ rw e (
    All-append (λ n. n ≢ col) (keep_if is_feature (columns df)) ("isFraud" ∷ [])
        (All-keep_if_of (λ n. n ≢ col) is_feature (columns df) (others col df h.0))
        ((λ same. ground (arith, e, same, str_eq_iff col "isFraud")), tt),
    features-IsDistinct df h.1,
  )
]
  where
    others :
        {V : Type 0} (col : String) (df : List (String × TableColumn V))
        → All (λ c. c.0 ≢ col) df
        → All (λ n. n ≢ col) (columns df)
    others col [] h = tt
    others col (c ∷ df) h = (h.0, others col df h.1)

-- With different names for the columns, and the same names in the two tables, the mappings of a
-- training give the data of the training again.
pub reload_data-load_data :
    {V : Type 0} (train_df test_df : List (String × TableColumn V)) (parts : Data V)
    (cat_mappings : Mappings)
    → HasDistinctColumns train_df
    → columns train_df ≡ columns test_df
    → load_data train_df test_df ≡ ok (parts, cat_mappings)
    → reload_data cat_mappings train_df test_df ≡ ok parts
unfolding load_data reload_data challenger_features
reload_data-load_data train_df test_df parts cat_mappings distinct names h =
    let cols = keep_if is_feature (columns train_df) ++ "isFraud" ∷ [] in
    let (train_part, t, h') = >>=-eq-ok (select cols train_df) _ h in
    let (test_part, s, h'') = >>=-eq-ok (select cols test_df) _ h' in
    let (parts', d, h3) =
      >>=-eq-ok
        (divide (keep_if is_feature (columns train_df)) (encode_categoricals train_part none).0
          (encode_categoricals test_part (some (encode_categoricals train_part none).1)).0)
        _ h'' in
    let both = ok-inj h3 in
    let same : (encode_categoricals train_part none).1 ≡ cat_mappings = ap (λ p. p.1) both in
    let part_distinct = HasDistinctColumns-of_IsDistinct train_part (
      subst IsDistinct (sym (select-columns cols train_df train_part t))
        (features-IsDistinct train_df distinct)) in
    let again = encode_categoricals-again train_part part_distinct in
    rw (sym names, t, s, sym same, again) (d ∙ ap ok (ap (λ p. p.0) both))
