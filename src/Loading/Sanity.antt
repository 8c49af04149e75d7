-- ===== src/Loading/Sanity.antt =====
-- How the check at the end of a load ends.
use fraud_ml_platform.Shared.{
  ℕ, ◌≤◌, ◌<◌, String, ◌≡◌, refl, sym, ap, ◌∙◌, inl, inr, true, false, none, some, List, [], ◌∷◌,
  map, arith, str_eq, str_eq_iff, ◌==◌, Bool-cases, Option-cases, length, any_of, All, length-map,
  FloatOps, ℤ, value_error, Result, ok, raise,
}
use fraud_ml_platform.Loading.Redis.{
  main, Value, Json, Table, Store, JsonFunctions, zip_features, all_of, same_set, clean, key_of,
  features_of, commands_of, check_key, check_keys,
}
use fraud_ml_platform.Loading.Rows.{last_row, last_set-last_row}
use fraud_ml_platform.Loading.Storage.{replay, execute_batches-replay}

-- `random.sample(ids, 5)`: five of the ids, or ValueError where there are fewer.
pub record IsSample (sample : List ℕ → ℕ → Result (List ℕ)) : Type 0 where
  pub enough :
      (ids : List ℕ)
      → 5 ≤ length ids
      → (chosen : List ℕ) × (sample ids 5 ≡ ok chosen)
        × All (λ i. any_of (λ j. j == i) ids ≡ true) chosen
  pub too_few : (ids : List ℕ) → length ids < 5 → sample ids 5 ≡ raise value_error

all_of-any_of : (xs : List String) → all_of (λ x. any_of (λ y. str_eq y x) xs) xs ≡ true
all_of-any_of xs = go xs xs (λ x h. h)
  where
    go :
        (ys zs : List String)
        → ((x : String) → any_of (λ y. str_eq y x) ys ≡ true → any_of (λ y. str_eq y x) zs ≡ true)
        → all_of (λ x. any_of (λ y. str_eq y x) zs) ys ≡ true
    go [] zs h = refl
    go (y ∷ ys) zs h =
        let first : any_of (λ w. str_eq w y) zs ≡ true = h y (ground (arith, str_eq_iff y y)) in
        let rest = go ys zs (λ x m. h x (ground (arith, m))) in ground (arith, first, rest)

same_set_refl : (xs : List String) → same_set xs xs ≡ true
same_set_refl xs = ground (arith, all_of-any_of xs)

All-zip :
    {A : Type 0} (P Q : A → Type 0) (xs : List A) → All P xs → All Q xs → All (λ x. P x × Q x) xs
All-zip P Q [] a b = tt
All-zip P Q (x ∷ xs) a b = ((a.0, b.0), All-zip P Q xs a.1 b.1)

module _ {F : Type 0} (ops : FloatOps F) (float_of : ℤ → F) (show : ℕ → String)
    (json : JsonFunctions F) where
  zip_features-names :
      (columns : List String) (values : List (Json F))
      → length values ≡ length columns
      → map (λ f. f.0) (zip_features columns values) ≡ columns
  zip_features-names [] [] h = refl
  zip_features-names [] (v ∷ vs) h = refl
  zip_features-names (c ∷ cs) [] h = absurd (omega arith)
  zip_features-names (c ∷ cs) (v ∷ vs) h = ap (λ l. c ∷ l) (zip_features-names cs vs (omega arith))

  -- Every row of the table has a value for each column.
  abbrev pub IsRectangular : Table F → Type 0
  IsRectangular t = All (λ r. length r.1 ≡ length t.columns) t.rows

  -- JSON gives back the features of every row.
  abbrev pub IsReadable : Table F → Type 0
  IsReadable t =
      All
        (λ r.
          json.loads (json.dumps (features_of ops float_of show json t.columns r.1))
          ≡ ok (features_of ops float_of show json t.columns r.1))
        t.rows

  last_row-known :
      (P : List (Value F) → Type 0) (i : ℕ) (rows : List (ℕ × List (Value F)))
      → All (λ r. P r.1) rows
      → any_of (λ j. j == i) (map (λ r. r.0) rows) ≡ true
      → (values : List (Value F)) × (last_row i rows ≡ some values) × P values
  last_row-known P i [] rect h = absurd (ground (arith, h))
  last_row-known P i ((j, values) ∷ rows) rect h = elim (Option-cases (last_row i rows)) [
    | inr (later, e) ↦ elim (Bool-cases (any_of (λ k. k == i) (map (λ r. r.0) rows))) [
      | inl m ↦
          let (found, f, l) = last_row-known P i rows rect.1 m in (found, ground (arith, e, f), l)
      | inr m ↦ absurd (ground (arith, e, last_row-unknown i rows m))
    ]
    | inl e ↦ elim (Bool-cases (j == i)) [
      | inl same ↦ (values, ground (arith, e, same), rect.0)
      | inr other ↦
          let (found, f, l) = last_row-known P i rows rect.1 (ground (arith, h, other)) in
          absurd (ground (arith, e, f))
    ]
  ]
    where
      last_row-unknown :
          (i : ℕ) (rows : List (ℕ × List (Value F)))
          → any_of (λ k. k == i) (map (λ r. r.0) rows) ≡ false
          → last_row i rows ≡ none
      last_row-unknown i [] m = refl
      last_row-unknown i ((j, values) ∷ rows) m = ground (arith, m, last_row-unknown i rows)

  length-map-clean :
      (values : List (Value F)) → length (map (clean ops float_of show json) values) ≡ length values
  length-map-clean values = length-map (clean ops float_of show json) values

  check_key-passes :
      (columns : List String) (store : Store) (i : ℕ) (values : List (Value F))
      → json.loads (json.dumps (features_of ops float_of show json columns values))
        ≡ ok (features_of ops float_of show json columns values)
      → length values ≡ length columns
      → store (key_of ops float_of show json i)
        ≡ some (json.dumps (features_of ops float_of show json columns values))
      → check_key ops float_of show json columns store i ≡ ok tt
  unfolding check_key
  check_key-passes columns store i values law l e =
      let features = features_of ops float_of show json columns values in
      let names =
        zip_features-names columns (map (clean ops float_of show json) values)
          (length-map-clean values ∙ l) in
      let count : length features ≡ length columns =
        sym (length-map (λ (f : String × Json F). f.0) features) ∙ ap length names in
      let counted : (length features == length columns) ≡ true = ground (arith, count) in
      let same : same_set (map (λ f. f.0) features) columns ≡ true =
        ap (λ ns. same_set ns columns) names ∙ same_set_refl columns in
      ground (arith, e, law, counted, same)

  All-both :
      (t : Table F)
      → IsRectangular t
      → IsReadable t
      → All
          (λ r.
            (length r.1 ≡ length t.columns)
            × (json.loads (json.dumps (features_of ops float_of show json t.columns r.1))
                ≡ ok (features_of ops float_of show json t.columns r.1)))
          t.rows
  All-both t a b = All-zip _ _ t.rows a b

  check_keys-passes :
      (t : Table F) (store : Store) (ids : List ℕ)
      → IsReadable t
      → ((a b : ℕ) → show a ≡ show b → a ≡ b)
      → IsRectangular t
      → All (λ i. any_of (λ j. j == i) (map (λ r. r.0) t.rows) ≡ true) ids
      → check_keys ops float_of show json t.columns
          (replay (commands_of ops float_of show json t) store)
          ids
        ≡ ok tt
  unfolding check_keys
  check_keys-passes t store [] law inj rect h = refl
  check_keys-passes t store (i ∷ ids) law inj rect h =
      let (values, e, (l, readable)) =
        last_row-known
          (λ vs.
            (length vs ≡ length t.columns)
            × (json.loads (json.dumps (features_of ops float_of show json t.columns vs))
                ≡ ok (features_of ops float_of show json t.columns vs)))
          i t.rows (All-both t rect law) h.0 in
      let set = last_set-last_row ops float_of show json i t.columns t.rows inj in
      let text : replay (commands_of ops float_of show json t) store
            (key_of ops float_of show json i)
          ≡ some (json.dumps (features_of ops float_of show json t.columns values)) =
        ground (arith, set, e) in
      let first =
        check_key-passes t.columns (replay (commands_of ops float_of show json t) store) i values
          readable l text in
      let rest = check_keys-passes t store ids law inj rect h.1 in ground (arith, first, rest)

  -- A load of a table with a value in each cell passes its own check if the table has five rows or
  -- more, and raises ValueError, for its sample, if it has fewer, where JSON gives back the features of
  -- the rows and numbers have different texts.
  pub main-passes :
      (sample : List ℕ → ℕ → Result (List ℕ)) (t : Table F) (store : Store)
      → IsSample sample
      → IsReadable t
      → ((a b : ℕ) → show a ≡ show b → a ≡ b)
      → IsRectangular t
      → (5 ≤ length t.rows → (main ops float_of show json sample t store).0 ≡ ok tt)
        × (length t.rows < 5 → (main ops float_of show json sample t store).0 ≡ raise value_error)
  unfolding main
  main-passes sample t store law jlaw inj rect =
      let n = length-map (λ (r : ℕ × List (Value F)). r.0) t.rows in
      (
        λ many.
            let (chosen, e, known) = law.enough (map (λ r. r.0) t.rows) (omega (arith, n, many)) in
            let passes = check_keys-passes t store chosen jlaw inj rect known in
            let stored = execute_batches-replay (commands_of ops float_of show json t) store in
            rw (e, stored) passes,
        λ few. let e = law.too_few (map (λ r. r.0) t.rows) (omega (arith, n, few)) in rw e refl,
      )
