-- ===== src/Training/Tests.antt =====
-- Concrete data of the training code, and the theorems at them.
-- Two folds over rows that are a day apart; the second row of the first fold is too near.
use fraud_ml_platform.Shared.{
  ℕ, ◌*◌, ◌≡◌, refl, none, some, List, [], ◌∷◌, map, arith, length, All, replicate, codes, pos,
  negsuc, Result, ok,
}
use fraud_ml_platform.Training.Decoding.{decode, categories-decode}
use fraud_ml_platform.Training.Encoder.{
  Column, unique, insert_text, sort_texts, categories, place, encode,
}
use fraud_ml_platform.Training.Features.{tld_from, tld}
use fraud_ml_platform.Training.Preprocess.{Row, insert_row, sort_rows, temporal_split}
use fraud_ml_platform.Training.Purging.{IsPurged, split-IsPurged}
use fraud_ml_platform.Training.Separation.{IsSeparated, temporal_split-IsSeparated}
use fraud_ml_platform.Training.Splits.{Event, fold, warn_dropped, purge, split_folds, split}

abbrev two_folds : ℕ → ℕ → Result (List (List ℕ × List ℕ))
two_folds n_splits n = ok ((0 ∷ 1 ∷ [], 2 ∷ 3 ∷ []) ∷ (0 ∷ 1 ∷ 3 ∷ [], 2 ∷ []) ∷ [])

abbrev seconds : List ℕ
seconds = 0 ∷ 100 ∷ 200 ∷ 86600 ∷ []

abbrev events : List Event
events = fold (0 ∷ 1 ∷ []) (3 ∷ []) ∷ warn_dropped 1 ∷ []

events_of : split two_folds 2 1 seconds ≡ ok events
unfolding split split_folds purge
events_of = refl

two_folds-length :
    (folds : List (List ℕ × List ℕ)) → two_folds 2 (length seconds) ≡ ok folds → length folds ≡ 2
two_folds-length folds h = ground (arith, h)

split-IsPurged_example : All (IsPurged seconds (1 * 86400)) events
split-IsPurged_example = split-IsPurged two_folds 2 1 seconds events events_of

abbrev domain : List ℕ
domain = codes "mail.example.com"

tld-domain : tld domain ≡ codes "com"
unfolding tld_from
tld-domain = refl

abbrev column : Column
column = some "visa" ∷ none ∷ some "amex" ∷ some "visa" ∷ []

codes_of_column : map (encode (categories column)) column ≡ pos 1 ∷ negsuc 0 ∷ pos 0 ∷ pos 1 ∷ []
unfolding encode categories sort_texts insert_text unique place
codes_of_column = refl

categories-decode_example :
    map (decode (categories column)) (map (encode (categories column)) column) ≡ column
categories-decode_example = categories-decode column refl

abbrev row : ℕ → Row ℕ
row t = record { transaction_dt = t; content = t }

abbrev given_rows : List (Row ℕ)
given_rows = row 3 ∷ row 1 ∷ row 5 ∷ row 2 ∷ row 4 ∷ []

passes : temporal_split given_rows ≡ ok (row 1 ∷ row 2 ∷ row 3 ∷ row 4 ∷ [], row 5 ∷ [])
unfolding temporal_split sort_rows insert_row
passes = refl

temporal_split-IsSeparated_example :
    IsSeparated given_rows (row 1 ∷ row 2 ∷ row 3 ∷ row 4 ∷ []) (row 5 ∷ [])
temporal_split-IsSeparated_example =
    temporal_split-IsSeparated given_rows (row 1 ∷ row 2 ∷ row 3 ∷ row 4 ∷ []) (row 5 ∷ []) passes

abbrev commands : List ℕ
commands = replicate 2003 7
