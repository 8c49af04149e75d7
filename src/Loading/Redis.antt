-- ===== src/Loading/Redis.antt =====
-- training/scripts/load_features_to_redis.py: a row becomes a text under its key; then five keys are
-- read back. JSON, the text of a number and `random.sample` are parameters, and no key expires.
use fraud_ml_platform.Shared.{
  ℕ, String, append_text, Bool, true, ◌&&◌, Option, none, some, List, [], ◌∷◌, map, str_eq, ◌==◌,
  if◌then◌else◌, length, any_of, FloatOps, ℤ, assertion_error, Result, ok, raise, ensure, ◌>>=◌,
  ◌>>◌,
}
use fraud_ml_platform.Training.Loader.{load_features}

pub data Value (F : Type 0) : Type 0 where
  float : F → Value F
  integer : ℤ → Value F
  -- a value of a column with `.cat`, by its code
  category : ℤ → Value F

-- What `json.dumps` is given.
pub data Json (F : Type 0) : Type 0 where
  null : Json F
  number : F → Json F
  whole : ℤ → Json F

abbrev pub Features : Type 0 → Type 0
Features F = List (String × Json F)

-- The table prep_test: the names of the columns but TransactionID, and its rows.
pub record Table (F : Type 0) : Type 0 where
  pub columns : List String
  pub rows : List (ℕ × List (Value F))

-- A Redis database, by the text under each key.
abbrev pub Store : Type 0
Store = String → Option String

-- One `SET`, without its expiry.
abbrev pub Command : Type 0
Command = String × String

abbrev pub set_key : Command → Store → Store
set_key (key, text) store k = if str_eq key k then some text else store k

-- `pipe.execute()`
unfoldable pub execute : List Command → Store → Store
execute [] store = store
execute (c ∷ pipe) store = execute pipe (set_key c store)

unfoldable pub execute_batches : List (List Command) → Store → Store
execute_batches [] store = store
execute_batches (pipe ∷ pipes) store = execute_batches pipes (execute pipe store)

-- The two functions of `json`.
pub record JsonFunctions (F : Type 0) : Type 0 where
  pub dumps : Features F → String
  pub loads : String → Result (Features F)

abbrev pub zip_features : {F : Type 0} → List String → List (Json F) → Features F
zip_features (c ∷ cs) (v ∷ vs) = (c, v) ∷ zip_features cs vs
zip_features _ _ = []

abbrev pub all_of : {A : Type 0} → (A → Bool) → List A → Bool
all_of p [] = true
all_of p (x ∷ xs) = p x && all_of p xs

-- Equality of the sets of two lists.
abbrev pub same_set : List String → List String → Bool
same_set xs ys =
    all_of (λ x. any_of (λ y. str_eq y x) ys) xs && all_of (λ y. any_of (λ x. str_eq x y) xs) ys

module _ {F : Type 0} (ops : FloatOps F) (float_of : ℤ → F) (show : ℕ → String)
    (json : JsonFunctions F) where
  -- `.cat.codes.astype("float64")`, and then None in the place of NaN, the one float that is not
  -- equal to itself.
  unfoldable pub clean : Value F → Json F
  clean (integer i) = whole i
  clean (category code) = number (float_of code)
  clean (float x) = if ops.feq x x then number x else null

  abbrev pub key_of : ℕ → String
  key_of txn_id = append_text "fraud:features:" (show txn_id)

  abbrev pub features_of : List String → List (Value F) → Features F
  features_of columns values = zip_features columns (map clean values)

  unfoldable pub commands_of : Table F → List Command
  commands_of t = map (λ r. (key_of r.0, json.dumps (features_of t.columns r.1))) t.rows

  -- The assertions on one key.
  unfoldable pub check_key : List String → Store → ℕ → Result (Unit {0})
  check_key columns store txn_id = elim (store (key_of txn_id)) [
    | none ↦ raise assertion_error
    | some text ↦ json.loads text >>= λ features.
        ensure (length features == length columns) assertion_error
        >> ensure (same_set (map (λ f. f.0) features) columns) assertion_error
  ]

  unfoldable pub check_keys : List String → Store → List ℕ → Result (Unit {0})
  check_keys columns store [] = ok tt
  check_keys columns store (i ∷ ids) =
      check_key columns store i >>= λ _. check_keys columns store ids

  -- `main`, with `random.sample` on the ids.
  unfoldable pub main : (List ℕ → ℕ → Result (List ℕ)) → Table F → Store → Result (Unit {0}) × Store
  main sample t store =
      let store' = execute_batches (load_features (commands_of t)) store in
      (sample (map (λ r. r.0) t.rows) 5 >>= (λ ids. check_keys t.columns store' ids), store')
