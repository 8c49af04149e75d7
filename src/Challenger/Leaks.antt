-- ===== src/Challenger/Leaks.antt =====
-- The columns that tell the time, in the two models.
use fraud_ml_platform.Shared.{
  String, ◌≡◌, refl, ◌∙◌, ◌⊎◌, inl, inr, Bool, true, false, not, ◌&&◌, List, arith,
}
use fraud_ml_platform.Challenger.Frames.{columns, is_feature, challenger_features}
use fraud_ml_platform.Training.Categoricals.{TableColumn}
use fraud_ml_platform.Training.Champions.{contains-keep_if}
use fraud_ml_platform.Training.Selection.{
  contains, exclude_from_features, is_category, names_of, champion_features,
}

-- The row's time and its day, which training/src/constants.py keeps from the features.
abbrev pub IsTemporal : String → Type 0
IsTemporal c = (c ≡ "TransactionDT") ⊎ (c ≡ "day")

-- A column that tells the time and is in the table is a feature of the challenger; the champion never
-- has it.
pub features-leak :
    {V : Type 0} (df : List (String × TableColumn V)) (train_df : List (String × Bool))
    (pruned_features : List String) (c : String)
    → IsTemporal c
    → contains c (columns df) ≡ true
    → (contains c (challenger_features df) ≡ true)
      × (contains c (champion_features train_df pruned_features) ≡ false)
unfolding challenger_features champion_features
features-leak df train_df pruned_features c temporal there =
    let kept = contains-keep_if c is_feature (columns df) in
    let left =
      contains-keep_if c
        (λ c.
          contains c (names_of train_df)
          && (not (contains c exclude_from_features) && not (is_category c train_df)))
        pruned_features in
    let marked = temporal-marked c temporal in
    (kept ∙ rw (there, marked.0) refl, left ∙ never _ _ _ _ marked.1)
  where
    temporal-marked :
        (c : String)
        → IsTemporal c
        → (is_feature c ≡ true) × (contains c exclude_from_features ≡ true)
    temporal-marked c (inl e) = rw e (refl, refl)
    temporal-marked c (inr e) = rw e (refl, refl)

    never : (a b d k : Bool) → d ≡ true → (a && (b && (not d && not k))) ≡ false
    never a b d k e = ground (arith, e)
