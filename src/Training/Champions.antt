-- ===== src/Training/Champions.antt =====
-- Which columns the champion is fitted to.
use fraud_ml_platform.Shared.{
  String, ◌≡◌, refl, ap, ◌∙◌, inl, inr, Bool, not, ◌&&◌, List, [], ◌∷◌, map, arith, str_eq,
  str_eq_iff, Bool-cases, take, keep_if,
}
use fraud_ml_platform.Training.Selection.{
  contains, exclude_from_features, is_category, names_of, champion_features, prune_features,
}

-- A filter by a test of the name.
pub contains-keep_if :
    (c : String) (p : String → Bool) (names : List String)
    → contains c (keep_if p names) ≡ (contains c names && p c)
contains-keep_if c p [] = refl
contains-keep_if c p (name ∷ names) =
    let rest = contains-keep_if c p names in
    elim (Bool-cases (str_eq name c)) [
      | inl e ↦
          let same : name ≡ c = ground (arith, e, str_eq_iff name c) in
          let test : p name ≡ p c = ap p same in ground (arith, e, test, rest)
      | inr e ↦ ground (arith, e, rest)
    ]

-- The champion has exactly the columns that are in the feature list, are not among the ten with the
-- most drift, are in the table, are not excluded, and are not of the type "category".
pub champion_features-contains :
    {F : Type 0} (train_df : List (String × Bool)) (importances : List (String × F))
    (all_features : List String) (c : String)
    → contains c (champion_features train_df (prune_features importances all_features)) ≡ (
        (contains c all_features && not (contains c (take 10 (map (λ i. i.0) importances))))
        && (contains c (names_of train_df)
            && (not (contains c exclude_from_features) && not (is_category c train_df))))
unfolding champion_features prune_features
champion_features-contains train_df importances all_features c =
    let top_drift = take 10 (map (λ i. i.0) importances) in
    let pruned = keep_if (λ f. not (contains f top_drift)) all_features in
    contains-keep_if c
      (λ c.
        contains c (names_of train_df)
        && (not (contains c exclude_from_features) && not (is_category c train_df)))
      pruned
    ∙ ap
        (λ b.
          b
          && (contains c (names_of train_df)
              && (not (contains c exclude_from_features) && not (is_category c train_df))))
        (contains-keep_if c (λ f. not (contains f top_drift)) all_features)
