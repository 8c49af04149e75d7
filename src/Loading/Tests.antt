-- ===== src/Loading/Tests.antt =====
-- A small load, and the theorems at it.
use Prim.Native.String.{len}
use text.Mathlib.TextLemmas.{append_cancel_left}
use text.Mathlib.TextPositions.{len-append}
use fraud_ml_platform.Shared.{
  ℕ, zero, suc, ◌≤◌, ◌<◌, String, append_text, ◌≡◌, refl, ap, ◌≢◌, true, none, some, List, [], ◌∷◌,
  arith, str_eq, ltb, ◌==◌, if◌then◌else◌, length, take, any_of, All, ℤ, pos, negsuc, value_error,
  Result, ok, raise,
}
use fraud_ml_platform.Loading.Redis.{
  main, float, integer, category, Json, null, number, whole, Features, Table, Store, execute,
  execute_batches, JsonFunctions, clean, key_of, commands_of, check_key, check_keys,
}
use fraud_ml_platform.Loading.Rows.{text_under, main_refines}
use fraud_ml_platform.Loading.Sanity.{IsSample, main-passes}
use fraud_ml_platform.Samples.{ints}
use fraud_ml_platform.Training.Loader.{send, load_features}

-- Numbers as tallies.

abbrev tally : ℕ → String
tally zero = ""
tally (suc n) = append_text "I" (tally n)

tally_injective : (a b : ℕ) → tally a ≡ tally b → a ≡ b
tally_injective zero zero e = refl
tally_injective zero (suc b) e = absurd (omega (arith, len-append "I" (tally b), ap len e))
tally_injective (suc a) zero e = absurd (omega (arith, len-append "I" (tally a), ap len e))
tally_injective (suc a) (suc b) e =
    ap suc (tally_injective a b (append_cancel_left "I" (tally a) (tally b) e))

abbrev float_of : ℤ → ℤ
float_of i = i

abbrev table : Table ℤ
table = record {
  columns = "card" ∷ "amount" ∷ [];
  rows =
      (1, category (negsuc 0) ∷ float (pos 5) ∷ [])
      ∷ (2, category (pos 0) ∷ float (pos 6) ∷ [])
      ∷ (3, category (pos 0) ∷ integer (pos 6) ∷ [])
      ∷ (2, category (pos 1) ∷ float (pos 7) ∷ [])
      ∷ (4, category (pos 0) ∷ integer (pos 6) ∷ [])
      ∷ [];
}

abbrev digits : Json ℤ → String
digits null = "null"
digits (number (pos n)) = append_text "+" (tally n)
digits (number (negsuc n)) = append_text "-" (tally n)
digits (whole (pos n)) = append_text "i+" (tally n)
digits (whole (negsuc n)) = append_text "i-" (tally n)

abbrev texts : Features ℤ → String
texts [] = ""
texts ((name, v) ∷ rest) = append_text name (append_text (digits v) (texts rest))

-- The texts of the table's rows, read back.
abbrev card_and_amount : Json ℤ → Json ℤ → Features ℤ
card_and_amount c a = ("card", c) ∷ ("amount", a) ∷ []

abbrev read : String → Result (Features ℤ)
read s =
    if str_eq s "card-amount+IIIII"
    then ok (card_and_amount (number (negsuc 0)) (number (pos 5)))
    else if str_eq s "card+amount+IIIIII"
    then ok (card_and_amount (number (pos 0)) (number (pos 6)))
    else if str_eq s "card+amounti+IIIIII"
    then ok (card_and_amount (number (pos 0)) (whole (pos 6)))
    else if str_eq s "card+Iamount+IIIIIII"
    then ok (card_and_amount (number (pos 1)) (number (pos 7)))
    else raise value_error

abbrev json : JsonFunctions ℤ
json = record { dumps = texts; loads = read }

-- The first five ids.
abbrev first_five : List ℕ → ℕ → Result (List ℕ)
first_five ids n = if ltb (length ids) n then raise value_error else ok (take n ids)

abbrev nothing : Store
nothing k = none

run : Unit {0}
unfolding main execute_batches execute load_features send commands_of clean check_keys check_key
run = tt

passes : (main ints float_of tally json first_five table nothing).0 ≡ ok tt
unfolding run
passes = refl

last_wins :
    (main ints float_of tally json first_five table nothing).1 "fraud:features:II"
    ≡ some "card+Iamount+IIIIIII"
unfolding run
last_wins = refl

known-take :
    (n : ℕ) (ids all : List ℕ)
    → ((i : ℕ) → any_of (λ j. j == i) ids ≡ true → any_of (λ j. j == i) all ≡ true)
    → All (λ i. any_of (λ j. j == i) all ≡ true) (take n ids)
known-take zero ids all h = tt
known-take (suc n) [] all h = tt
known-take (suc n) (i ∷ ids) all h =
    (h i (ground arith), known-take n ids all (λ k m. h k (ground (arith, m))))

first_five-IsSample : IsSample first_five
first_five-IsSample = record {
  enough = λ ids many. (take 5 ids, ground (arith, many), known-take 5 ids ids (λ i m. m));
  too_few = λ ids few. ground (arith, few);
}

main_refines_example :
    ((i : ℕ)
      → (main ints float_of tally json first_five table nothing).1
          (key_of ints float_of tally json i)
        ≡ text_under ints float_of tally json table.columns table.rows nothing i)
    × ((k : String)
        → All (λ r. key_of ints float_of tally json r.0 ≢ k) table.rows
        → (main ints float_of tally json first_five table nothing).1 k ≡ nothing k)
main_refines_example =
    main_refines ints float_of tally json first_five table nothing tally_injective

main-passes_example :
    (5 ≤ length table.rows → (main ints float_of tally json first_five table nothing).0 ≡ ok tt)
    × (length table.rows < 5
        → (main ints float_of tally json first_five table nothing).0 ≡ raise value_error)
main-passes_example =
    main-passes ints float_of tally json first_five table nothing first_five-IsSample
      (unfold run in (refl, (refl, (refl, (refl, (refl, tt)))))) tally_injective
      (refl, (refl, (refl, (refl, (refl, tt)))))
