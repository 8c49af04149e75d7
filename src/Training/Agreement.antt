-- ===== src/Training/Agreement.antt =====
-- The two encodings of a categorical column, training/src/features.py and
-- monitoring/common/encoding.py.
use fraud_ml_platform.Shared.{
  String, ◌≡◌, refl, sym, ap, ◌∙◌, inl, inr, Bool, false, not, none, some, List, [], ◌∷◌, map,
  arith, str_eq, str_eq_iff, Bool-cases, Option-cases, keep_if, codes, negsuc,
}
use fraud_ml_platform.Training.Categoricals.{last_place, code}
use fraud_ml_platform.Training.Decoding.{
  has_text-insert_text, has_text-sort_texts, has_text-categories, place-none, encode-missing,
}
use fraud_ml_platform.Training.Encoder.{
  Column, has_text, drop_missing, unique, codes_ltb, insert_text, sort_texts, categories, place,
  encode,
}

-- No text is there twice.
unfoldable pub IsDistinctTexts : List String → Type 0
IsDistinctTexts [] = Unit
IsDistinctTexts (x ∷ xs) = (has_text xs x ≡ false) × IsDistinctTexts xs

has_text-filtered :
    (p : String → Bool) (xs : List String) (c : String)
    → has_text xs c ≡ false
    → has_text (keep_if p xs) c ≡ false
has_text-filtered p [] c h = refl
has_text-filtered p (x ∷ xs) c h = ground (arith, h, has_text-filtered p xs c)

has_text-removed :
    (x : String) (xs : List String) → has_text (keep_if (λ y. not (str_eq y x)) xs) x ≡ false
has_text-removed x [] = refl
has_text-removed x (y ∷ ys) = ground (arith, has_text-removed x ys)

keep_if-IsDistinctTexts :
    (p : String → Bool) (xs : List String) → IsDistinctTexts xs → IsDistinctTexts (keep_if p xs)
unfolding IsDistinctTexts
keep_if-IsDistinctTexts p [] h = tt
keep_if-IsDistinctTexts p (x ∷ xs) h = elim (Bool-cases (p x)) [
  | inl e ↦ rw e (has_text-filtered p xs x h.0, keep_if-IsDistinctTexts p xs h.1)
  | inr e ↦ rw e (keep_if-IsDistinctTexts p xs h.1)
]

pub unique-IsDistinctTexts : (xs : List String) → IsDistinctTexts (unique xs)
unfolding unique IsDistinctTexts
unique-IsDistinctTexts [] = tt
unique-IsDistinctTexts (x ∷ xs) = (
  has_text-removed x (unique xs),
  keep_if-IsDistinctTexts (λ y. not (str_eq y x)) (unique xs) (unique-IsDistinctTexts xs),
)

insert_text-IsDistinctTexts :
    (s : String) (xs : List String)
    → has_text xs s ≡ false
    → IsDistinctTexts xs
    → IsDistinctTexts (insert_text s xs)
unfolding insert_text IsDistinctTexts
insert_text-IsDistinctTexts s [] new h = (refl, tt)
insert_text-IsDistinctTexts s (x ∷ xs) new h = elim (Bool-cases (codes_ltb (codes x) (codes s))) [
  | inl e ↦
      let other : str_eq s x ≡ false = ground (arith, new, str_eq_iff s x, str_eq_iff x s) in
      let fresh : has_text xs s ≡ false = ground (arith, new) in
      let still : has_text (insert_text s xs) x ≡ false =
        has_text-insert_text x s xs ∙ ground (arith, other, h.0) in
      rw e (still, insert_text-IsDistinctTexts s xs fresh h.1)
  | inr e ↦ rw e (new, h)
]

sort_texts-IsDistinctTexts :
    (xs : List String) → IsDistinctTexts xs → IsDistinctTexts (sort_texts xs)
unfolding sort_texts IsDistinctTexts
sort_texts-IsDistinctTexts [] h = tt
sort_texts-IsDistinctTexts (x ∷ xs) h =
    insert_text-IsDistinctTexts x (sort_texts xs) (has_text-sort_texts x xs ∙ h.0)
      (sort_texts-IsDistinctTexts xs h.1)

last_place-place :
    (xs : List String) (c : String) → IsDistinctTexts xs → last_place xs c ≡ place xs c
unfolding last_place place IsDistinctTexts
last_place-place [] c h = refl
last_place-place (x ∷ xs) c h =
    let rest = last_place-place xs c h.1 in
    elim (Bool-cases (str_eq x c)) [
      | inl e ↦
          let same : x ≡ c = (str_eq_iff x c).0 e in
          let none_later : place xs c ≡ none = place-none xs c (rw same at h.0) in
          rw (rest, none_later, e) refl
      | inr e ↦ elim (Option-cases (place xs c)) [
        | inl p ↦ rw (rest, p, e) refl
        | inr (i, p) ↦ rw (rest, p, e) refl
      ]
    ]

code-place :
    (mapping : List String) (s : String)
    → IsDistinctTexts mapping
    → code mapping (some s) ≡ encode mapping (some s)
unfolding code encode
code-place mapping s h = rw (code, encode, last_place-place mapping s h) refl

code-missing : (mapping : List String) → code mapping none ≡ negsuc 0
unfolding code
code-missing mapping = refl

-- If a column has no text "nan", the challenger's code of any value, missing or not, in the column or
-- not, is the champion's: with the categories of the column as the mapping of both, the two features
-- that the table has of the column are the same numbers.
pub code-encode :
    (column values : Column)
    → has_text (drop_missing column) "nan" ≡ false
    → map (code (categories column)) values ≡ map (encode (categories column)) values
code-encode column [] h = refl
code-encode column (none ∷ values) h =
    let absent : place (categories column) "nan" ≡ none =
      place-none (categories column) "nan" (has_text-categories "nan" column ∙ h) in
    let first : code (categories column) none ≡ encode (categories column) none =
      code-missing (categories column) ∙ sym (encode-missing (categories column) absent) in
    ap (λ z. z ∷ map (code (categories column)) values) first
    ∙ ap (λ l. encode (categories column) none ∷ l) (code-encode column values h)
code-encode column (some s ∷ values) h =
    let first : code (categories column) (some s) ≡ encode (categories column) (some s) =
      code-place (categories column) s (
        unfold categories in
        sort_texts-IsDistinctTexts (unique (drop_missing column))
          (unique-IsDistinctTexts (drop_missing column))) in
    ap (λ z. z ∷ map (code (categories column)) values) first
    ∙ ap (λ l. encode (categories column) (some s) ∷ l) (code-encode column values h)
