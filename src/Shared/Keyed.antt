-- ===== src/Shared/Keyed.antt =====
-- INSERT .. ON CONFLICT (key) DO NOTHING, on a table with a text for a key.
use Prim.Native.String.{String}
use mathlib.Core.Path.{◌≡◌, refl, sym, ◌∙◌}
use mathlib.Core.Logic.{◌≢◌, inl, inr}
use mathlib.Core.Bool.{Bool, true, false}
use mathlib.Core.List.{List, [], ◌∷◌, ◌++◌, append-nil, append_assoc}
use native.Mathlib.Omega.{arith}
use text.Mathlib.Text.{◌==◌ as str_eq}
use text.Mathlib.TextEquality.{eq_iff as str_eq_iff}
use fraud_ml_platform.Shared.Tests.{if◌then◌else◌, Bool-cases}
use fraud_ml_platform.Shared.Lists.{any_of, All, All-append}

module _ {A : Type 0} (key : A → String) where
  abbrev pub has_key : List A → String → Bool
  has_key table k = any_of (λ r. str_eq (key r) k) table

  unfoldable pub insert_new : List A → A → List A
  insert_new table r = if has_key table (key r) then table else table ++ r ∷ []

  unfoldable pub insert_all : List A → List A → List A
  insert_all table [] = table
  insert_all table (r ∷ rs) = insert_all (insert_new table r) rs

  abbrev pub HasUniqueKeys : List A → Type 0
  HasUniqueKeys [] = Unit
  HasUniqueKeys (r ∷ rs) = All (λ x. key x ≢ key r) rs × HasUniqueKeys rs

  has_key-append : (xs ys : List A) (k : String) → has_key xs k ≡ true → has_key (xs ++ ys) k ≡ true
  has_key-append [] ys k h = ground (arith, h)
  has_key-append (x ∷ xs) ys k h = ground (arith, h, has_key-append xs ys k)

  has_key-snoc : (xs : List A) (r : A) → has_key (xs ++ r ∷ []) (key r) ≡ true
  has_key-snoc [] r = ground (arith, str_eq_iff (key r) (key r))
  has_key-snoc (x ∷ xs) r = ground (arith, has_key-snoc xs r)

  pub insert_all-one : (table : List A) (r : A) → insert_all table (r ∷ []) ≡ insert_new table r
  unfolding insert_all
  insert_all-one table r = refl

  pub insert_all-none : (table : List A) → insert_all table [] ≡ table
  unfolding insert_all
  insert_all-none table = refl

  -- The rows that were there stay in front.
  pub insert_all-extends :
      (table rs : List A) → (new : List A) × (insert_all table rs ≡ table ++ new)
  unfolding insert_all insert_new
  insert_all-extends table [] = ([], sym (append-nil table))
  insert_all-extends table (r ∷ rs) = elim (Bool-cases (has_key table (key r))) [
    | inl old ↦ let (new, e) = insert_all-extends table rs in (new, rw old e)
    | inr fresh ↦
        let (new, e) = insert_all-extends (table ++ r ∷ []) rs in
        (r ∷ new, rw fresh (e ∙ append_assoc table (r ∷ []) new))
  ]

  insert_new-has : (table : List A) (r : A) → has_key (insert_new table r) (key r) ≡ true
  unfolding insert_new
  insert_new-has table r = ground (arith, has_key-snoc table r)

  insert_all-keeps_key :
      (table rs : List A) (k : String)
      → has_key table k ≡ true
      → has_key (insert_all table rs) k ≡ true
  insert_all-keeps_key table rs k h =
      let (new, e) = insert_all-extends table rs in rw e (has_key-append table new k h)

  -- Each row's key is in the table afterwards.
  pub insert_all-has :
      (table rs : List A) → All (λ r. has_key (insert_all table rs) (key r) ≡ true) rs
  unfolding insert_all
  insert_all-has table [] = tt
  insert_all-has table (r ∷ rs) = (
    insert_all-keeps_key (insert_new table r) rs (key r) (insert_new-has table r),
    insert_all-has (insert_new table r) rs,
  )

  -- Rows whose keys are in the table change nothing.
  pub insert_all-present :
      (table rs : List A) → All (λ r. has_key table (key r) ≡ true) rs → insert_all table rs ≡ table
  unfolding insert_all insert_new
  insert_all-present table [] h = refl
  insert_all-present table (r ∷ rs) h = rw h.0 (insert_all-present table rs h.1)

  pub insert_all-again :
      (table rs : List A) → insert_all (insert_all table rs) rs ≡ insert_all table rs
  insert_all-again table rs = insert_all-present (insert_all table rs) rs (insert_all-has table rs)

  HasUniqueKeys-snoc :
      (table : List A) (r : A)
      → has_key table (key r) ≡ false
      → HasUniqueKeys table
      → HasUniqueKeys (table ++ r ∷ [])
  HasUniqueKeys-snoc [] r h u = (tt, tt)
  HasUniqueKeys-snoc (x ∷ xs) r h u = (
    All-append (λ y. key y ≢ key x) xs (r ∷ []) u.0
        (ground (arith, h, str_eq_iff (key x) (key r)), tt),
    HasUniqueKeys-snoc xs r (ground (arith, h)) u.1,
  )

  pub insert_all-HasUniqueKeys :
      (table rs : List A) → HasUniqueKeys table → HasUniqueKeys (insert_all table rs)
  unfolding insert_all insert_new
  insert_all-HasUniqueKeys table [] u = u
  insert_all-HasUniqueKeys table (r ∷ rs) u = elim (Bool-cases (has_key table (key r))) [
    | inl old ↦ rw old (insert_all-HasUniqueKeys table rs u)
    | inr fresh ↦
        rw fresh
          (insert_all-HasUniqueKeys (table ++ r ∷ []) rs (HasUniqueKeys-snoc table r fresh u))
  ]
