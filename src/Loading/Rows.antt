-- ===== src/Loading/Rows.antt =====
-- What a load leaves under each key.
use text.Mathlib.TextLemmas.{append_cancel_left}
use fraud_ml_platform.Shared.{
  ℕ, String, ◌≡◌, refl, sym, ap, ◌∙◌, ◌≢◌, inl, inr, true, Option, none, some, List, [], ◌∷◌, arith,
  str_eq, str_eq_iff, ◌==◌, if◌then◌else◌, Bool-cases, Option-cases, All, FloatOps, ℤ, Result,
}
use fraud_ml_platform.Loading.Redis.{
  main, Value, Table, Store, JsonFunctions, key_of, features_of, commands_of,
}
use fraud_ml_platform.Loading.Storage.{last_set, replay, execute_batches-replay}

-- The values of the last row of a transaction.

abbrev pub last_row : {V : Type 0} → ℕ → List (ℕ × V) → Option V
last_row i [] = none
last_row i ((txn_id, values) ∷ rows) = elim (last_row i rows) [
  | some later ↦ some later
  | none ↦ if txn_id == i then some values else none
]

module _ {F : Type 0} (ops : FloatOps F) (float_of : ℤ → F) (show : ℕ → String)
    (json : JsonFunctions F) where
  key_of-eq :
      (i j : ℕ)
      → ((a b : ℕ) → show a ≡ show b → a ≡ b)
      → str_eq (key_of ops float_of show json j) (key_of ops float_of show json i) ≡ (j == i)
  key_of-eq i j inj = elim (Bool-cases (j == i)) [
    | inl same ↦
        let e : j ≡ i = ground (arith, same) in
        rw e (rw (str_eq_self (key_of ops float_of show json i)) (sym (same_number i)))
    | inr other ↦
        elim (Bool-cases
          (str_eq (key_of ops float_of show json j) (key_of ops float_of show json i))) [
            | inr no_match ↦ no_match ∙ sym other
            | inl match ↦
                let texts =
                  (str_eq_iff (key_of ops float_of show json j) (key_of ops float_of show json i)).0
                    match in
                let e = inj j i (append_cancel_left "fraud:features:" (show j) (show i) texts) in
                absurd (ground (arith, e, other))
          ]
  ]
    where
      str_eq_self : (s : String) → str_eq s s ≡ true
      str_eq_self s = (str_eq_iff s s).1 refl

      same_number : (i : ℕ) → (i == i) ≡ true
      same_number i = ground arith

  abbrev pub stored_text : List String → Option (List (Value F)) → Option String
  stored_text columns none = none
  stored_text columns (some values) =
      some (json.dumps (features_of ops float_of show json columns values))

  pub last_set-last_row :
      (i : ℕ) (columns : List String) (rows : List (ℕ × List (Value F)))
      → ((a b : ℕ) → show a ≡ show b → a ≡ b)
      → last_set
          (key_of ops float_of show json i)
          (commands_of ops float_of show json (record { columns = columns; rows = rows }))
        ≡ stored_text columns (last_row i rows)
  unfolding commands_of
  last_set-last_row i columns [] inj = refl
  last_set-last_row i columns ((j, values) ∷ rows) inj =
      let rest = last_set-last_row i columns rows inj in
      let keys = key_of-eq i j inj in
      elim (Option-cases (last_row i rows)) [
        | inr (later, e) ↦ ground (arith, rest, e)
        | inl e ↦ elim (Bool-cases (j == i)) [
          | inl same ↦ ground (arith, rest, e, same, keys)
          | inr other ↦ ground (arith, rest, e, other, keys)
        ]
      ]

  main-store :
      (sample : List ℕ → ℕ → Result (List ℕ)) (t : Table F) (store : Store)
      → (main ops float_of show json sample t store).1
        ≡ replay (commands_of ops float_of show json t) store
  unfolding main
  main-store sample t store = execute_batches-replay (commands_of ops float_of show json t) store

  -- The text under a key.
  abbrev pub text_under : List String → List (ℕ × List (Value F)) → Store → ℕ → Option String
  text_under columns rows store i = elim (stored_text columns (last_row i rows)) [
    | some text ↦ some text
    | none ↦ store (key_of ops float_of show json i)
  ]

  last_set-other :
      (k : String) (columns : List String) (rows : List (ℕ × List (Value F)))
      → All (λ r. key_of ops float_of show json r.0 ≢ k) rows
      → last_set k (commands_of ops float_of show json (record { columns = columns; rows = rows }))
        ≡ none
  unfolding commands_of
  last_set-other k columns [] h = refl
  last_set-other k columns ((j, values) ∷ rows) h =
      let rest = last_set-other k columns rows h.1 in
      ground (arith, rest, h.0, str_eq_iff (key_of ops float_of show json j) k)

  -- A load, in its batches, does to the database what the table says: where numbers have different
  -- texts, the key of a transaction holds the features of its last row, or what was there if the
  -- table has no such row, and every other key is as it was.
  pub main_refines :
      (sample : List ℕ → ℕ → Result (List ℕ)) (t : Table F) (store : Store)
      → ((a b : ℕ) → show a ≡ show b → a ≡ b)
      → ((i : ℕ)
          → (main ops float_of show json sample t store).1 (key_of ops float_of show json i)
            ≡ text_under t.columns t.rows store i)
        × ((k : String)
            → All (λ r. key_of ops float_of show json r.0 ≢ k) t.rows
            → (main ops float_of show json sample t store).1 k ≡ store k)
  main_refines sample t store inj = (
    λ i.
        let e = last_set-last_row i t.columns t.rows inj in
        ap (λ (s : Store). s (key_of ops float_of show json i)) (main-store sample t store)
        ∙ ap
            (λ o. elim o as (λ _. Option String) [
              | some text ↦ some text
              | none ↦ store (key_of ops float_of show json i)
            ])
            e,
    λ k h.
        let e = last_set-other k t.columns t.rows h in
        ap (λ (s : Store). s k) (main-store sample t store)
        ∙ ap (λ o. elim o as (λ _. Option String) [ some text ↦ some text | none ↦ store k ]) e,
  )
