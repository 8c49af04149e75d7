-- ===== src/Shared/Lists.antt =====
-- Lists measured by native numbers, filtered by Boolean tests, and predicates on their items.
use Prim.Native.Nat.{ℕ, zero, suc, ◌+◌, ◌≤◌, ◌<◌, min}
use mathlib.Core.Path.{◌≡◌, refl, subst}
use mathlib.Core.Logic.{◌≢◌, inl, inr}
use mathlib.Core.Bool.{Bool, true, false}
use mathlib.Core.List.{List, [], ◌∷◌, ◌++◌, map, Memᴰ}
use native.Mathlib.Omega.{arith}
use fraud_ml_platform.Shared.Tests.{if◌then◌else◌, Bool-cases}

module _ {ℓ} {A : Type ℓ} where
  abbrev pub length : List A → ℕ
  length [] = 0
  length (x ∷ xs) = suc (length xs)

  abbrev pub take : ℕ → List A → List A
  take zero xs = []
  take (suc n) [] = []
  take (suc n) (x ∷ xs) = x ∷ take n xs

  abbrev pub drop : ℕ → List A → List A
  drop zero xs = xs
  drop (suc n) [] = []
  drop (suc n) (x ∷ xs) = drop n xs

  -- A comprehension `[x for x in xs if p(x)]`, and the WHERE clause of a query.
  abbrev pub keep_if : (A → Bool) → List A → List A
  keep_if p [] = []
  keep_if p (x ∷ xs) = if p x then x ∷ keep_if p xs else keep_if p xs

  abbrev pub any_of : (A → Bool) → List A → Bool
  any_of p [] = false
  any_of p (x ∷ xs) = if p x then true else any_of p xs

  abbrev pub All {κ} : (A → Type κ) → List A → Type κ
  All P [] = Unit
  All P (x ∷ xs) = P x × All P xs

module _ {ℓ} {A : Type ℓ} where
  pub length-append : (xs ys : List A) → length (xs ++ ys) ≡ length xs + length ys
  length-append [] ys = omega arith
  length-append (x ∷ xs) ys = omega (arith, length-append xs ys)

  pub length-map {κ} : {B : Type κ} (f : A → B) (xs : List A) → length (map f xs) ≡ length xs
  length-map f [] = refl
  length-map f (x ∷ xs) = omega (arith, length-map f xs)

  pub length-take : (n : ℕ) (xs : List A) → length (take n xs) ≡ min n (length xs)
  length-take zero xs = omega arith
  length-take (suc n) [] = omega arith
  length-take (suc n) (x ∷ xs) = omega (arith, length-take n xs)

  pub length-keep_if-le : (p : A → Bool) (xs : List A) → length (keep_if p xs) ≤ length xs
  length-keep_if-le p [] = omega arith
  length-keep_if-le p (x ∷ xs) = ground (arith, length-keep_if-le p xs)

  pub keep_if-append :
      (p : A → Bool) (xs ys : List A) → keep_if p (xs ++ ys) ≡ keep_if p xs ++ keep_if p ys
  keep_if-append p [] ys = refl
  keep_if-append p (x ∷ xs) ys = ground (arith, keep_if-append p xs ys)

  pub All-append {κ} : (P : A → Type κ) (xs ys : List A) → All P xs → All P ys → All P (xs ++ ys)
  All-append P [] ys hx hy = hy
  All-append P (x ∷ xs) ys hx hy = (hx.0, All-append P xs ys hx.1 hy)

  pub All-imp {κ μ} :
      (P : A → Type κ) (Q : A → Type μ)
      → ((a : A) → P a → Q a)
      → (xs : List A) → All P xs
      → All Q xs
  All-imp P Q f [] h = tt
  All-imp P Q f (x ∷ xs) h = (f x h.0, All-imp P Q f xs h.1)

  -- What a filter keeps passes its test.
  pub All-keep_if : (p : A → Bool) (xs : List A) → All (λ a. p a ≡ true) (keep_if p xs)
  All-keep_if p [] = tt
  All-keep_if p (x ∷ xs) = ground (arith, All-keep_if p xs)

  pub All-keep_if_of {κ} :
      (P : A → Type κ) (p : A → Bool) (xs : List A) → All P xs → All P (keep_if p xs)
  All-keep_if_of P p [] h = tt
  All-keep_if_of P p (x ∷ xs) h = ground (arith, h.0, All-keep_if_of P p xs h.1)

  -- A predicate that holds where the test fails holds of all if it holds of what is kept.
  pub All_of_keep_if {κ} :
      (P : A → Type κ) (q : A → Bool) (xs : List A)
      → ((a : A) → q a ≡ false → P a)
      → All P (keep_if q xs)
      → All P xs
  All_of_keep_if P q [] f h = tt
  All_of_keep_if P q (x ∷ xs) f h = elim (Bool-cases (q x)) [
    | inl kept ↦
        let first : keep_if q (x ∷ xs) ≡ x ∷ keep_if q xs = rw kept in
        let both : P x × All P (keep_if q xs) = subst (All P) first h in
        (both.0, All_of_keep_if P q xs f both.1)
    | inr out ↦
        let first : keep_if q (x ∷ xs) ≡ keep_if q xs = rw out in
        (f x out, All_of_keep_if P q xs f (subst (All P) first h))
  ]

  pub All-take {κ} : (P : A → Type κ) (n : ℕ) (xs : List A) → All P xs → All P (take n xs)
  All-take P zero xs h = tt
  All-take P (suc n) [] h = tt
  All-take P (suc n) (x ∷ xs) h = (h.0, All-take P n xs h.1)

  pub All-map {κ μ} :
      {B : Type κ} (P : B → Type μ) (f : A → B) (xs : List A)
      → All P (map f xs)
      → All (λ a. P (f a)) xs
  All-map P f [] h = tt
  All-map P f (x ∷ xs) h = (h.0, All-map P f xs h.1)

  pub All-Memᴰ : (xs : List A) → All (λ a. Memᴰ a xs) xs
  All-Memᴰ [] = tt
  All-Memᴰ (x ∷ xs) = (
    Memᴰ.head refl,
    All-imp (λ a. Memᴰ a xs) (λ a. Memᴰ a (x ∷ xs)) (λ a m. Memᴰ.tail m) xs (All-Memᴰ xs),
  )

  pub take-all : (n : ℕ) (xs : List A) → length xs ≤ n → take n xs ≡ xs
  take-all zero [] h = refl
  take-all zero (x ∷ xs) h = absurd (omega arith)
  take-all (suc n) [] h = refl
  take-all (suc n) (x ∷ xs) h = rw (take-all n xs (omega arith))

  pub take-take : (n m : ℕ) (xs : List A) → n ≤ m → take n (take m xs) ≡ take n xs
  take-take zero m xs h = refl
  take-take (suc n) zero xs h = absurd (omega arith)
  take-take (suc n) (suc m) [] h = refl
  take-take (suc n) (suc m) (x ∷ xs) h = rw (take-take n m xs (omega arith))

  pub take-map {κ} :
      {B : Type κ} (f : A → B) (n : ℕ) (xs : List A) → take n (map f xs) ≡ map f (take n xs)
  take-map f zero xs = refl
  take-map f (suc n) [] = refl
  take-map f (suc n) (x ∷ xs) = rw (take-map f n xs)

module _ {ℓ} {A : Type ℓ} where
  abbrev pub replicate : ℕ → A → List A
  replicate zero a = []
  replicate (suc n) a = a ∷ replicate n a

  pub length-replicate : (n : ℕ) (a : A) → length (replicate n a) ≡ n
  length-replicate zero a = refl
  length-replicate (suc n) a = omega (arith, length-replicate n a)

abbrev pub sum : List ℕ → ℕ
sum [] = 0
sum (x ∷ xs) = x + sum xs

-- An item of a list of numbers, 0 out of range.
abbrev pub item : ℕ → List ℕ → ℕ
item i [] = 0
item zero (x ∷ xs) = x
item (suc i) (x ∷ xs) = item i xs

-- `xs[i] += 1`
abbrev pub increment : ℕ → List ℕ → List ℕ
increment i [] = []
increment zero (x ∷ xs) = suc x ∷ xs
increment (suc i) (x ∷ xs) = x ∷ increment i xs

pub length-increment : (i : ℕ) (xs : List ℕ) → length (increment i xs) ≡ length xs
length-increment i [] = refl
length-increment zero (x ∷ xs) = refl
length-increment (suc i) (x ∷ xs) = omega (arith, length-increment i xs)

pub sum-increment : (i : ℕ) (xs : List ℕ) → i < length xs → sum (increment i xs) ≡ suc (sum xs)
sum-increment i [] h = absurd (omega arith)
sum-increment zero (x ∷ xs) h = omega arith
sum-increment (suc i) (x ∷ xs) h = omega (arith, sum-increment i xs (omega arith))

pub item-increment_same :
    (i : ℕ) (xs : List ℕ) → i < length xs → item i (increment i xs) ≡ suc (item i xs)
item-increment_same i [] h = absurd (omega arith)
item-increment_same zero (x ∷ xs) h = refl
item-increment_same (suc i) (x ∷ xs) h = item-increment_same i xs (omega arith)

pub item-increment_other : (i j : ℕ) (xs : List ℕ) → i ≢ j → item i (increment j xs) ≡ item i xs
item-increment_other i j [] h = refl
item-increment_other zero zero (x ∷ xs) h = absurd (h refl)
item-increment_other zero (suc j) (x ∷ xs) h = refl
item-increment_other (suc i) zero (x ∷ xs) h = refl
item-increment_other (suc i) (suc j) (x ∷ xs) h = item-increment_other i j xs (omega arith)

pub sum-zeros : (n : ℕ) → sum (replicate n 0) ≡ 0
sum-zeros zero = refl
sum-zeros (suc n) = omega (arith, sum-zeros n)

pub item-zeros : (i n : ℕ) → item i (replicate n 0) ≡ 0
item-zeros i zero = refl
item-zeros zero (suc n) = refl
item-zeros (suc i) (suc n) = item-zeros i n
