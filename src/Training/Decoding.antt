-- ===== src/Training/Decoding.antt =====
-- The codes of a column determine its values.
use fraud_ml_platform.Shared.{
  ℕ, zero, suc, String, ◌≡◌, refl, ap, ◌∙◌, inl, inr, true, false, not, Option, none, some, List,
  [], ◌∷◌, map, arith, str_eq, str_eq_iff, Bool-cases, keep_if, ℤ, pos, negsuc,
}
use fraud_ml_platform.Training.Encoder.{
  Column, has_text, drop_missing, unique, insert_text, sort_texts, categories, place, encode,
}

abbrev pub text_at : ℕ → List String → Option String
text_at i [] = none
text_at zero (x ∷ xs) = some x
text_at (suc i) (x ∷ xs) = text_at i xs

-- The inverse of an encoding: -1 stands for a missing value.
abbrev pub decode : List String → ℤ → Option String
decode mapping (pos i) = text_at i mapping
decode mapping (negsuc i) = none

has_text-keep_if :
    (c x : String) (ys : List String)
    → str_eq x c ≡ false
    → has_text (keep_if (λ y. not (str_eq y x)) ys) c ≡ has_text ys c
has_text-keep_if c x [] h = refl
has_text-keep_if c x (y ∷ ys) h =
    ground (arith, h, str_eq_iff y x, str_eq_iff x c, str_eq_iff y c, has_text-keep_if c x ys h)

has_text-unique : (c : String) (xs : List String) → has_text (unique xs) c ≡ has_text xs c
unfolding unique
has_text-unique c [] = refl
has_text-unique c (x ∷ xs) = elim (Bool-cases (str_eq x c)) [
  | inl e ↦ rw e refl
  | inr e ↦ rw e (has_text-keep_if c x (unique xs) e ∙ has_text-unique c xs)
]

pub has_text-insert_text :
    (c x : String) (xs : List String) → has_text (insert_text x xs) c ≡ has_text (x ∷ xs) c
unfolding insert_text
has_text-insert_text c x [] = refl
has_text-insert_text c x (y ∷ ys) = ground (arith, has_text-insert_text c x ys)

pub has_text-sort_texts :
    (c : String) (xs : List String) → has_text (sort_texts xs) c ≡ has_text xs c
unfolding sort_texts
has_text-sort_texts c [] = refl
has_text-sort_texts c (x ∷ xs) =
    ground (arith, has_text-insert_text c x (sort_texts xs), has_text-sort_texts c xs)

pub has_text-categories :
    (c : String) (column : Column)
    → has_text (categories column) c ≡ has_text (drop_missing column) c
unfolding categories
has_text-categories c column =
    has_text-sort_texts c (unique (drop_missing column)) ∙ has_text-unique c (drop_missing column)

place-text_at :
    (xs : List String) (c : String)
    → has_text xs c ≡ true
    → (i : ℕ) × (place xs c ≡ some i) × (text_at i xs ≡ some c)
unfolding place
place-text_at [] c h = absurd (ground (arith, h))
place-text_at (x ∷ xs) c h = elim (Bool-cases (str_eq x c)) [
  | inl e ↦ (0, rw e refl, ap some ((str_eq_iff x c).0 e))
  | inr e ↦ let (i, p, t) = place-text_at xs c (ground (arith, h, e)) in (suc i, rw (e, p) refl, t)
]

pub place-none : (xs : List String) (c : String) → has_text xs c ≡ false → place xs c ≡ none
unfolding place
place-none [] c h = refl
place-none (x ∷ xs) c h = elim (Bool-cases (str_eq x c)) [
  | inl e ↦ absurd (ground (arith, h, e))
  | inr e ↦ rw (e, place-none xs c (ground (arith, h, e))) refl
]

encode-place :
    (mapping : List String) (s : String) (i : ℕ)
    → place mapping s ≡ some i
    → encode mapping (some s) ≡ pos i
unfolding encode
encode-place mapping s i e = ground (arith, e)

encode-no_place :
    (mapping : List String) (s : String)
    → place mapping s ≡ none
    → encode mapping (some s) ≡ negsuc 0
unfolding encode
encode-no_place mapping s e = ground (arith, e)

pub encode-missing :
    (mapping : List String) → place mapping "nan" ≡ none → encode mapping none ≡ negsuc 0
unfolding encode
encode-missing mapping e = ground (arith, e)

decode-encode :
    (mapping : List String) (value : Option String)
    → has_text mapping "nan" ≡ false
    → ((s : String) → value ≡ some s → has_text mapping s ≡ true)
    → decode mapping (encode mapping value) ≡ value
decode-encode mapping none h known =
    ap (decode mapping) (encode-missing mapping (place-none mapping "nan" h))
decode-encode mapping (some s) h known =
    let (i, p, t) = place-text_at mapping s (known s refl) in
    ap (decode mapping) (encode-place mapping s i p) ∙ t

decode-map :
    (mapping : List String) (column : Column)
    → has_text mapping "nan" ≡ false
    → ((s : String) → has_text (drop_missing column) s ≡ true → has_text mapping s ≡ true)
    → map (decode mapping) (map (encode mapping) column) ≡ column
decode-map mapping [] h known = refl
decode-map mapping (none ∷ values) h known =
    rw (decode-encode mapping none h (λ s e. absurd (ground (arith, e))))
      (ap (λ l. none ∷ l) (decode-map mapping values h known))
decode-map mapping (some x ∷ values) h known =
    let first : decode mapping (encode mapping (some x)) ≡ some x =
      decode-encode mapping (some x) h (λ s e. known s (ground (arith, e, str_eq_iff x s))) in
    let rest = decode-map mapping values h (λ s m. known s (ground (arith, m))) in cc

-- If a column has no text "nan", which is how missing values are looked up, its codes for its own
-- categories decode to its values, the missing ones included: different values have different
-- codes.
pub categories-decode :
    (column : Column)
    → has_text (drop_missing column) "nan" ≡ false
    → map (decode (categories column)) (map (encode (categories column)) column) ≡ column
categories-decode column h =
    decode-map (categories column) column (has_text-categories "nan" column ∙ h)
      (λ s m. has_text-categories s column ∙ m)

-- A text that is not in the column that the categories are of is encoded as -1.
pub encode-unseen :
    (column : Column) (s : String)
    → has_text (drop_missing column) s ≡ false
    → encode (categories column) (some s) ≡ negsuc 0
encode-unseen column s h =
    encode-no_place (categories column) s
      (place-none (categories column) s (has_text-categories s column ∙ h))
