-- ===== src/Training/Categoricals.antt =====
-- monitoring/common/encoding.py: codes for the categorical columns of a table, with the maps of an
-- earlier table, or new ones.
-- A column with `.cat`, its categories as texts, and its values; any other column is left
-- alone: its values are of any type V.
use fraud_ml_platform.Shared.{
  ℕ, suc, String, ◌≡◌, refl, sym, ap, ◌≢◌, Option, none, some, List, [], ◌∷◌, map, arith, str_eq,
  str_eq_iff, if◌then◌else◌, All, ℤ, pos, negsuc,
}
use fraud_ml_platform.Training.Encoder.{categories}

pub data TableColumn (V : Type 0) : Type 0 where
  categorical : List String → List (Option String) → TableColumn V
  plain : List V → TableColumn V

pub data Encoded (V : Type 0) : Type 0 where
  codes_of : List ℤ → Encoded V
  unchanged : List V → Encoded V

-- `{str(v): i for i, v in enumerate(categories)}`: the last place of a text counts.
unfoldable pub last_place : List String → String → Option ℕ
last_place [] c = none
last_place (x ∷ xs) c = elim (last_place xs c) [
  | some i ↦ some (suc i)
  | none ↦ if str_eq x c then some 0 else none
]

-- A mapping is the list of categories that it is made from, and `{}` the empty list.
abbrev pub Mappings : Type 0
Mappings = List (String × List String)

-- `mappings.get(col, {})`
unfoldable pub get : Mappings → String → List String
get [] col = []
get ((name, mapping) ∷ rest) col = if str_eq name col then mapping else get rest col

-- `.map(mapping).fillna(-1)`, on one value; a missing value stays missing.
unfoldable pub code : List String → Option String → ℤ
code mapping none = negsuc 0
code mapping (some s) = elim (last_place mapping s) [ some i ↦ pos i | none ↦ negsuc 0 ]

-- The loop over the columns, without mappings and with them.
unfoldable pub encode_new :
    {V : Type 0} → List (String × TableColumn V) → List (String × Encoded V) × Mappings
encode_new [] = ([], [])
encode_new ((col, plain values) ∷ df) =
    let (encoded, out) = encode_new df in ((col, unchanged values) ∷ encoded, out)
encode_new ((col, categorical categories values) ∷ df) =
    let (encoded, out) = encode_new df in
    ((col, codes_of (map (code categories) values)) ∷ encoded, (col, categories) ∷ out)

unfoldable pub encode_with :
    {V : Type 0} → Mappings → List (String × TableColumn V) → List (String × Encoded V)
encode_with mappings [] = []
encode_with mappings ((col, plain values) ∷ df) = (col, unchanged values) ∷ encode_with mappings df
encode_with mappings ((col, categorical categories values) ∷ df) =
    (col, codes_of (map (code (get mappings col)) values)) ∷ encode_with mappings df

unfoldable pub encode_categoricals :
    {V : Type 0}
    → List (String × TableColumn V)
    → Option Mappings
    → List (String × Encoded V) × Mappings
encode_categoricals df none = encode_new df
encode_categoricals df (some mappings) = (encode_with mappings df, mappings)

-- The names of the columns are different.
abbrev pub HasDistinctColumns : {V : Type 0} → List (String × TableColumn V) → Type 0
HasDistinctColumns [] = Unit
HasDistinctColumns ((col, _) ∷ df) = All (λ c. c.0 ≢ col) df × HasDistinctColumns df

get-other :
    (rest : Mappings) (a b : String) (m : List String) → a ≢ b → get ((a, m) ∷ rest) b ≡ get rest b
unfolding get
get-other rest a b m h = ground (arith, h, str_eq_iff a b)

get-same : (rest : Mappings) (a : String) (m : List String) → get ((a, m) ∷ rest) a ≡ m
unfolding get
get-same rest a m = ground (arith, str_eq_iff a a)

-- A mapping of another column changes nothing.
encode_with-other :
    {V : Type 0} (mappings : Mappings) (a : String) (m : List String)
    (df : List (String × TableColumn V))
    → All (λ c. c.0 ≢ a) df
    → encode_with ((a, m) ∷ mappings) df ≡ encode_with mappings df
unfolding encode_with
encode_with-other mappings a m [] h = refl
encode_with-other mappings a m ((col, plain values) ∷ df) h =
    ap (λ l. (col, unchanged values) ∷ l) (encode_with-other mappings a m df h.1)
encode_with-other mappings a m ((col, categorical categories values) ∷ df) h =
    let same = get-other mappings a col m (λ e. h.0 (sym e)) in
    let rest = encode_with-other mappings a m df h.1 in rw (same, rest) refl

encode_with-encode_new :
    {V : Type 0} (df : List (String × TableColumn V))
    → HasDistinctColumns df
    → encode_with (encode_new df).1 df ≡ (encode_new df).0
unfolding encode_with encode_new
encode_with-encode_new [] h = refl
encode_with-encode_new ((col, plain values) ∷ df) h =
    ap (λ l. (col, unchanged values) ∷ l) (encode_with-encode_new df h.1)
encode_with-encode_new ((col, categorical categories values) ∷ df) h =
    let same = get-same (encode_new df).1 col categories in
    let rest = encode_with-other (encode_new df).1 col categories df h.0 in
    rw (same, rest)
      (ap (λ l. (col, codes_of (map (code categories) values)) ∷ l) (encode_with-encode_new df h.1))

-- With different names for the columns, the mappings that an encoding returns encode the same table
-- to the same codes again, and are returned as they are.
pub encode_categoricals-again :
    {V : Type 0} (df : List (String × TableColumn V))
    → HasDistinctColumns df
    → encode_categoricals df (some (encode_categoricals df none).1) ≡ encode_categoricals df none
unfolding encode_categoricals
encode_categoricals-again df h = ap (λ l. (l, (encode_new df).1)) (encode_with-encode_new df h)
