-- ===== src/Baselines/Sampling.antt =====
-- What the stratified sample of training/src/baselines.py is.
use fraud_ml_platform.Shared.{
  ℕ, suc, ◌+◌, ◌-◌, ◌≤◌, ◌<◌, ◌≡◌, refl, ap, ◌∙◌, inl, inr, Bool, true, false, List, [], ◌∷◌, ◌++◌,
  arith, ltb, ◌==◌, Bool-cases, length, keep_if, any_of, All, length-append, keep_if-append,
  All-imp, item,
}
use fraud_ml_platform.Baselines.Models.{places, insert_label, label_keys, insert_place, sort_places}

abbrev pub count : (ℕ → Bool) → List ℕ → ℕ
count p xs = length (keep_if p xs)

pub count-append : (p : ℕ → Bool) (xs ys : List ℕ) → count p (xs ++ ys) ≡ count p xs + count p ys
count-append p xs ys =
    ap length (keep_if-append p xs ys) ∙ length-append (keep_if p xs) (keep_if p ys)

pub count-none : (p : ℕ → Bool) (xs : List ℕ) → All (λ x. p x ≡ false) xs → count p xs ≡ 0
count-none p [] h = refl
count-none p (x ∷ xs) h = ground (arith, h.0, count-none p xs h.1)

pub count-all : (p : ℕ → Bool) (xs : List ℕ) → All (λ x. p x ≡ true) xs → count p xs ≡ length xs
count-all p [] h = refl
count-all p (x ∷ xs) h = ground (arith, h.0, count-all p xs h.1)

-- Sorting the places.
unfoldable pub IsSorted : List ℕ → Type 0
IsSorted [] = Unit
IsSorted (x ∷ xs) = All (λ y. x ≤ y) xs × IsSorted xs

insert_place-All :
    (P : ℕ → Type 0) (i : ℕ) (js : List ℕ) → P i → All P js → All P (insert_place i js)
unfolding insert_place
insert_place-All P i [] hi h = (hi, tt)
insert_place-All P i (j ∷ js) hi h = elim (Bool-cases (ltb j i)) [
  | inl e ↦ rw e (h.0, insert_place-All P i js hi h.1)
  | inr e ↦ rw e (hi, h)
]

insert_place-IsSorted : (i : ℕ) (js : List ℕ) → IsSorted js → IsSorted (insert_place i js)
unfolding insert_place IsSorted
insert_place-IsSorted i [] h = (tt, tt)
insert_place-IsSorted i (j ∷ js) h = elim (Bool-cases (ltb j i)) [
  | inl e ↦
      rw e
        (insert_place-All (λ y. j ≤ y) i js (ground (arith, e)) h.0, insert_place-IsSorted i js h.1)
  | inr e ↦
      let least : i ≤ j = ground (arith, e) in
      rw e ((least, All-imp (λ y. j ≤ y) (λ y. i ≤ y) (λ y l. omega (arith, least, l)) js h.0), h)
]

count-insert_place :
    (p : ℕ → Bool) (i : ℕ) (js : List ℕ) → count p (insert_place i js) ≡ count p (i ∷ js)
unfolding insert_place
count-insert_place p i [] = refl
count-insert_place p i (j ∷ js) = ground (arith, count-insert_place p i js)

pub sort_places-IsSorted : (is : List ℕ) → IsSorted (sort_places is)
unfolding sort_places IsSorted
sort_places-IsSorted [] = tt
sort_places-IsSorted (i ∷ is) = insert_place-IsSorted i (sort_places is) (sort_places-IsSorted is)

pub count-sort_places : (p : ℕ → Bool) (is : List ℕ) → count p (sort_places is) ≡ count p is
unfolding sort_places
count-sort_places p [] = refl
count-sort_places p (i ∷ is) =
    let rest = count-sort_places p is in
    count-insert_place p i (sort_places is) ∙ ground (arith, rest)

-- The places of a label.
pub places-All :
    (label i : ℕ) (y : List ℕ)
    → All (λ j. (i ≤ j) × (j < i + length y) × (item (j - i) y ≡ label)) (places label i y)
unfolding places
places-All label i [] = tt
places-All label i (x ∷ ys) =
    let later =
      All-imp (λ j. (i + 1 ≤ j) × (j < i + 1 + length ys) × (item (j - (i + 1)) ys ≡ label))
        (λ j. (i ≤ j) × (j < i + suc (length ys)) × (item (j - i) (x ∷ ys) ≡ label))
        (λ j h.
          let e : j - i ≡ suc (j - (i + 1)) = omega (arith, h.0) in
          (omega (arith, h.0), omega (arith, h.1), rw e h.2))
        (places label (i + 1) ys) (places-All label (i + 1) ys) in
    elim (Bool-cases (x == label)) [
      | inl e ↦
          let zero_off : i - i ≡ 0 = omega arith in
          rw e ((omega arith, omega arith, rw zero_off (ground (arith, e))), later)
      | inr e ↦ rw e later
    ]

pub length-places :
    (label i : ℕ) (y : List ℕ) → length (places label i y) ≡ count (λ x. x == label) y
unfolding places
length-places label i [] = refl
length-places label i (x ∷ ys) = ground (arith, length-places label (i + 1) ys)

-- The keys of the groups are ascending, and are the labels.
unfoldable pub IsAscending : List ℕ → Type 0
IsAscending [] = Unit
IsAscending (x ∷ xs) = All (λ y. x < y) xs × IsAscending xs

insert_label-All :
    (P : ℕ → Type 0) (y : ℕ) (xs : List ℕ) → P y → All P xs → All P (insert_label y xs)
unfolding insert_label
insert_label-All P y [] hy h = (hy, tt)
insert_label-All P y (x ∷ xs) hy h = elim (Bool-cases (y == x)) [
  | inl e ↦ rw e h
  | inr e ↦ elim (Bool-cases (ltb y x)) [
    | inl l ↦ rw (e, l) (hy, h)
    | inr g ↦ rw (e, g) (h.0, insert_label-All P y xs hy h.1)
  ]
]

insert_label-IsAscending : (y : ℕ) (xs : List ℕ) → IsAscending xs → IsAscending (insert_label y xs)
unfolding insert_label IsAscending
insert_label-IsAscending y [] h = (tt, tt)
insert_label-IsAscending y (x ∷ xs) h = elim (Bool-cases (y == x)) [
  | inl e ↦ rw e h
  | inr e ↦ elim (Bool-cases (ltb y x)) [
    | inl l ↦
        let less : y < x = ground (arith, l) in
        rw (e, l)
          ((less, All-imp (λ z. x < z) (λ z. y < z) (λ z k. omega (arith, less, k)) xs h.0), h)
    | inr g ↦
        rw (e, g)
          (
            insert_label-All (λ z. x < z) y xs (ground (arith, e, g)) h.0,
            insert_label-IsAscending y xs h.1,
          )
  ]
]

pub label_keys-IsAscending : (y : List ℕ) → IsAscending (label_keys y)
unfolding label_keys IsAscending
label_keys-IsAscending [] = tt
label_keys-IsAscending (x ∷ ys) =
    insert_label-IsAscending x (label_keys ys) (label_keys-IsAscending ys)

any_of-insert_label :
    (label y : ℕ) (xs : List ℕ)
    → any_of (λ x. x == label) (insert_label y xs) ≡ any_of (λ x. x == label) (y ∷ xs)
unfolding insert_label
any_of-insert_label label y [] = refl
any_of-insert_label label y (x ∷ xs) = ground (arith, any_of-insert_label label y xs)

pub any_of-label_keys :
    (label : ℕ) (y : List ℕ) → any_of (λ x. x == label) (label_keys y) ≡ any_of (λ x. x == label) y
unfolding label_keys
any_of-label_keys label [] = refl
any_of-label_keys label (x ∷ ys) =
    let rest = any_of-label_keys label ys in
    any_of-insert_label label x (label_keys ys) ∙ ground (arith, rest)
