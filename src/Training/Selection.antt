-- ===== src/Training/Selection.antt =====
-- training/src/constants.py, training/src/adversarial.py and the scripts: which columns the models are
-- fitted to. Of a table only the names of its columns count, each with whether it is of the type
-- "category".
use fraud_ml_platform.Shared.{
  ℕ, String, append_text, Bool, true, false, not, ◌&&◌, List, [], ◌∷◌, ◌++◌, map, str_eq,
  if◌then◌else◌, take, keep_if, any_of, codes, codes_eq,
}

-- `c in names`
abbrev pub contains : String → List String → Bool
contains c names = any_of (λ n. str_eq n c) names

abbrev pub exclude_from_features : List String
exclude_from_features = "TransactionID" ∷ "TransactionDT" ∷ "isFraud" ∷ "day" ∷ []

abbrev pub is_category : String → List (String × Bool) → Bool
is_category c [] = false
is_category c ((name, category) ∷ df) = if str_eq name c then category else is_category c df

abbrev pub names_of : List (String × Bool) → List String
names_of df = map (λ c. c.0) df

-- The comprehension of tune.py, evaluate.py and baselines.py.
unfoldable pub champion_features : List (String × Bool) → List String → List String
champion_features train_df pruned_features =
    keep_if
      (λ c.
        contains c (names_of train_df)
        && (not (contains c exclude_from_features) && not (is_category c train_df)))
      pruned_features

-- `text.endswith(ending)`, on code points.
abbrev pub ends_with : List ℕ → List ℕ → Bool
ends_with ending [] = codes_eq [] ending
ends_with ending (c ∷ cs) = if codes_eq (c ∷ cs) ending then true else ends_with ending cs

abbrev pub encoded_name : String → String
encoded_name c = append_text c "_encoded"

abbrev pub is_raw : String → Bool
is_raw c = not (contains c exclude_from_features) && not (ends_with (codes "_encoded") (codes c))

-- The columns of run_adversarial_validation.
unfoldable pub use_cols : List String → List String
use_cols columns =
    let feature_cols = keep_if is_raw columns in
    keep_if (λ c. not (contains (encoded_name c) columns)) feature_cols
    ++ map encoded_name (keep_if (λ c. contains (encoded_name c) columns) feature_cols)

-- scripts/adversarial_validation.py: the features less the ten that tell the train rows and the test
-- rows apart best, the importances being in descending order.
unfoldable pub prune_features : {F : Type 0} → List (String × F) → List String → List String
prune_features importances all_features =
    let top_drift = take 10 (map (λ i. i.0) importances) in
    keep_if (λ f. not (contains f top_drift)) all_features
