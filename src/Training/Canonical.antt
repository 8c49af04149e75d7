-- ===== src/Training/Canonical.antt =====
-- The encoder of training/src/features.py depends on the values of a column alone, not on the order
-- of its rows.
use Prim.Native.Char.{code}
use text.Mathlib.TextEquality.{Char-path}
use fraud_ml_platform.Shared.{
  ℕ, String, ◌≡◌, refl, sym, ap, ◌∙◌, subst, inl, inr, Bool, true, false, List, [], ◌∷◌, arith,
  str_eq, str_eq_iff, ◌==◌, Bool-cases, All, All-imp, codes,
}
use fraud_ml_platform.Training.Agreement.{IsDistinctTexts, unique-IsDistinctTexts}
use fraud_ml_platform.Training.Decoding.{has_text-sort_texts, has_text-categories}
use fraud_ml_platform.Training.Encoder.{
  Column, has_text, drop_missing, unique, codes_ltb, insert_text, sort_texts, categories,
}

codes_ltb-irreflexive : (a : List ℕ) → codes_ltb a a ≡ false
codes_ltb-irreflexive [] = refl
codes_ltb-irreflexive (x ∷ a) = ground (arith, codes_ltb-irreflexive a)

codes_ltb-transitive :
    (a b c : List ℕ) → codes_ltb a b ≡ true → codes_ltb b c ≡ true → codes_ltb a c ≡ true
codes_ltb-transitive a [] [] h k = absurd (ground (arith, k))
codes_ltb-transitive [] [] (z ∷ c) h k = refl
codes_ltb-transitive (x ∷ a) [] (z ∷ c) h k = absurd (ground (arith, h))
codes_ltb-transitive a (y ∷ b) [] h k = absurd (ground (arith, k))
codes_ltb-transitive [] (y ∷ b) (z ∷ c) h k = refl
codes_ltb-transitive (x ∷ a) (y ∷ b) (z ∷ c) h k = ground (arith, h, k, codes_ltb-transitive a b c)

codes_ltb-connected : (a b : List ℕ) → codes_ltb a b ≡ false → codes_ltb b a ≡ false → a ≡ b
codes_ltb-connected [] [] h k = refl
codes_ltb-connected [] (y ∷ b) h k = absurd (ground (arith, h))
codes_ltb-connected (x ∷ a) [] h k = absurd (ground (arith, k))
codes_ltb-connected (x ∷ a) (y ∷ b) h k = elim (Bool-cases (x == y)) [
  | inl e ↦
      let same : x ≡ y = ground (arith, e) in
      let rest =
        codes_ltb-connected a b (ground (arith, h, e, same)) (ground (arith, k, e, same)) in
      cc
  | inr e ↦ absurd (ground (arith, h, k, e))
]

codes-inj : (s t : String) → codes s ≡ codes t → s ≡ t
codes-inj String.[] String.[] h = refl
codes-inj String.[] (String.◌∷◌ d t) h = absurd (ground (arith, h))
codes-inj (String.◌∷◌ c s) String.[] h = absurd (ground (arith, h))
codes-inj (String.◌∷◌ c s) (String.◌∷◌ d t) h =
    let first : code c ≡ code d = ground (arith, h) in
    let same = Char-path c d first in
    let rest = codes-inj s t (ground (arith, h)) in
    ap (λ x. String.◌∷◌ x s) same ∙ ap (λ x. String.◌∷◌ d x) rest

abbrev text_ltb : String → String → Bool
text_ltb s t = codes_ltb (codes s) (codes t)

IsAscendingTexts : List String → Type 0
IsAscendingTexts [] = Unit
IsAscendingTexts (x ∷ xs) = All (λ y. text_ltb x y ≡ true) xs × IsAscendingTexts xs

has_text-All :
    (P : String → Type 0) (xs : List String) → All P xs → (c : String) → has_text xs c ≡ true → P c
has_text-All P [] h c there = absurd (ground (arith, there))
has_text-All P (x ∷ xs) h c there = elim (Bool-cases (str_eq x c)) [
  | inl e ↦ subst P ((str_eq_iff x c).0 e) h.0
  | inr e ↦ has_text-All P xs h.1 c (ground (arith, there, e))
]

insert_text-All :
    (P : String → Type 0) (s : String) (xs : List String)
    → P s
    → All P xs
    → All P (insert_text s xs)
unfolding insert_text
insert_text-All P s [] hs h = (hs, tt)
insert_text-All P s (x ∷ xs) hs h = elim (Bool-cases (text_ltb x s)) [
  | inl e ↦ rw e (h.0, insert_text-All P s xs hs h.1)
  | inr e ↦ rw e (hs, h)
]

insert_text-IsAscendingTexts :
    (s : String) (xs : List String)
    → has_text xs s ≡ false
    → IsAscendingTexts xs
    → IsAscendingTexts (insert_text s xs)
unfolding insert_text IsAscendingTexts
insert_text-IsAscendingTexts s [] new h = (tt, tt)
insert_text-IsAscendingTexts s (x ∷ xs) new h = elim (Bool-cases (text_ltb x s)) [
  | inl e ↦ rw e (
    insert_text-All (λ y. text_ltb x y ≡ true) s xs e h.0,
    insert_text-IsAscendingTexts s xs (ground (arith, new)) h.1,
  )
  | inr e ↦
      let less : text_ltb s x ≡ true = elim (Bool-cases (text_ltb s x)) [
        | inl l ↦ l
        | inr g ↦
            let same = codes-inj x s (codes_ltb-connected (codes x) (codes s) e g) in
            absurd (ground (arith, new, same, str_eq_iff x s))
      ] in
      rw e (
        (
          less,
          All-imp (λ y. text_ltb x y ≡ true) (λ y. text_ltb s y ≡ true)
              (λ y k. codes_ltb-transitive (codes s) (codes x) (codes y) less k) xs h.0,
        ),
        h,
      )
]

sort_texts-IsAscendingTexts :
    (xs : List String) → IsDistinctTexts xs → IsAscendingTexts (sort_texts xs)
unfolding sort_texts IsDistinctTexts IsAscendingTexts
sort_texts-IsAscendingTexts [] h = tt
sort_texts-IsAscendingTexts (x ∷ xs) h =
    insert_text-IsAscendingTexts x (sort_texts xs) (has_text-sort_texts x xs ∙ h.0)
      (sort_texts-IsAscendingTexts xs h.1)

-- The first text is not behind itself.
first-absent :
    (x : String) (xs : List String) → All (λ y. text_ltb x y ≡ true) xs → has_text xs x ≡ false
first-absent x xs h = elim (Bool-cases (has_text xs x)) [
  | inl e ↦
      let self = has_text-All (λ y. text_ltb x y ≡ true) xs h x e in
      absurd (ground (arith, self, codes_ltb-irreflexive (codes x)))
  | inr e ↦ e
]

ascending-eq :
    (xs ys : List String)
    → IsAscendingTexts xs
    → IsAscendingTexts ys
    → ((c : String) → has_text xs c ≡ has_text ys c)
    → xs ≡ ys
unfolding IsAscendingTexts
ascending-eq [] [] hx hy same = refl
ascending-eq [] (y ∷ ys) hx hy same = absurd (ground (arith, same y, str_eq_iff y y))
ascending-eq (x ∷ xs) [] hx hy same = absurd (ground (arith, same x, str_eq_iff x x))
ascending-eq (x ∷ xs) (y ∷ ys) hx hy same = elim (Bool-cases (str_eq x y)) [
  | inr e ↦
      let e' : str_eq y x ≡ false = ground (arith, e, str_eq_iff x y, str_eq_iff y x) in
      let x_there : has_text ys x ≡ true = ground (arith, same x, str_eq_iff x x, e') in
      let y_there : has_text xs y ≡ true = ground (arith, same y, str_eq_iff y y, e) in
      let below = has_text-All (λ z. text_ltb y z ≡ true) ys hy.0 x x_there in
      let above = has_text-All (λ z. text_ltb x z ≡ true) xs hx.0 y y_there in
      let self = codes_ltb-transitive (codes x) (codes y) (codes x) above below in
      absurd (ground (arith, self, codes_ltb-irreflexive (codes x)))
  | inl e ↦
      let first = (str_eq_iff x y).0 e in
      let rest = ascending-eq xs ys hx.1 hy.1 (λ c. tails c first) in
      ap (λ l. x ∷ l) rest ∙ ap (λ z. z ∷ ys) first
]
  where
    tails : (c : String) → x ≡ y → has_text xs c ≡ has_text ys c
    tails c first = elim (Bool-cases (str_eq x c)) [
      | inl e ↦
          let at_c = (str_eq_iff x c).0 e in
          let absent_x = first-absent x xs hx.0 in
          let absent_y = first-absent y ys hy.0 in
          rw at_c at absent_x ∙ sym (rw (sym first ∙ at_c) at absent_y)
      | inr e ↦ let e' : str_eq y c ≡ false = rw first at e in ground (arith, same c, e, e')
    ]

-- Two columns with the same texts, in any order and any number, have the same categories, so that
-- the encoder gives every value the same code, whatever rows come first: it may be built before the
-- rows are sorted or after.
pub categories-order :
    (column other : Column)
    → ((c : String) → has_text (drop_missing column) c ≡ has_text (drop_missing other) c)
    → categories column ≡ categories other
unfolding categories
categories-order column other same =
    ascending-eq (sort_texts (unique (drop_missing column)))
      (sort_texts (unique (drop_missing other)))
      (sort_texts-IsAscendingTexts (unique (drop_missing column))
        (unique-IsDistinctTexts (drop_missing column)))
      (sort_texts-IsAscendingTexts (unique (drop_missing other))
        (unique-IsDistinctTexts (drop_missing other)))
      (λ c.
        unfold categories in
        has_text-categories c column ∙ same c ∙ sym (has_text-categories c other))
