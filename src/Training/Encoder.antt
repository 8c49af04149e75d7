-- ===== src/Training/Encoder.antt =====
-- training/src/features.py: the encoder of categories, one dictionary for each column.
use mathlib.Core.Option
use fraud_ml_platform.Shared.{
  ℕ, suc, String, append_text, Bool, true, false, not, Option, none, some, List, [], ◌∷◌, map,
  str_eq, ltb, ◌==◌, if◌then◌else◌, keep_if, any_of, codes, ℤ, pos, negsuc, key_error, Result, ok,
  raise, ◌>>=◌,
}

-- A column of texts; a missing value is none.
abbrev pub Column : Type 0
Column = List (Option String)

abbrev pub has_text : List String → String → Bool
has_text xs c = any_of (λ x. str_eq x c) xs

abbrev pub drop_missing : Column → List String
drop_missing [] = []
drop_missing (none ∷ values) = drop_missing values
drop_missing (some s ∷ values) = s ∷ drop_missing values

unfoldable pub unique : List String → List String
unique [] = []
unique (x ∷ xs) = x ∷ keep_if (λ y. not (str_eq y x)) (unique xs)

-- The order of texts, by code points.
abbrev pub codes_ltb : List ℕ → List ℕ → Bool
codes_ltb [] [] = false
codes_ltb [] (d ∷ ds) = true
codes_ltb (c ∷ cs) [] = false
codes_ltb (c ∷ cs) (d ∷ ds) = let rest = codes_ltb cs ds in if c == d then rest else ltb c d

unfoldable pub insert_text : String → List String → List String
insert_text s [] = s ∷ []
insert_text s (x ∷ xs) = if codes_ltb (codes x) (codes s) then x ∷ insert_text s xs else s ∷ x ∷ xs

unfoldable pub sort_texts : List String → List String
sort_texts [] = []
sort_texts (x ∷ xs) = insert_text x (sort_texts xs)

-- `sorted(df[col].dropna().astype(str).unique())`. The dictionary maps each to its place.
unfoldable pub categories : Column → List String
categories column = sort_texts (unique (drop_missing column))

-- `df[col]` of a table, and `encoder[col]` of an encoder.
abbrev pub lookup : {A : Type 0} → String → List (String × A) → Option A
lookup k [] = none
lookup k ((name, a) ∷ rest) = if str_eq name k then some a else lookup k rest

unfoldable pub build_categorical_encoder :
    List (String × Column) → List String → Result (List (String × List String))
build_categorical_encoder df [] = ok []
build_categorical_encoder df (col ∷ cols) = elim (lookup col df) [
  | none ↦ raise key_error
  | some column ↦ build_categorical_encoder df cols >>= λ rest. ok ((col, categories column) ∷ rest)
]

-- The place of a category.
unfoldable pub place : List String → String → Option ℕ
place [] c = none
place (x ∷ xs) c = let rest = place xs c in if str_eq x c then some 0 else Option.map suc rest

-- `.astype(str).map(mapping).fillna(-1).astype(int)`, on one value.
unfoldable pub encode : List String → Option String → ℤ
encode mapping value = elim (place mapping (elim value [ some s ↦ s | none ↦ "nan" ])) [
  | some i ↦ pos i
  | none ↦ negsuc 0
]

-- The columns that are added to the table: one for each column of the encoder that the table has.
unfoldable pub apply_categorical_encoder :
    List (String × Column) → List (String × List String) → List (String × List ℤ)
apply_categorical_encoder df [] = []
apply_categorical_encoder df ((col, mapping) ∷ encoder) =
    let rest = apply_categorical_encoder df encoder in
    elim (lookup col df) [
      | none ↦ rest
      | some column ↦ (append_text col "_encoded", map (encode mapping) column) ∷ rest
    ]
