-- ===== src/Challenger/Graph.antt =====
-- monitoring/scripts/train_challenger.py: the ONNX graph that `_export_onnx` cuts down. A model is
-- what the code touches of it; types and contents are of any sorts T and A.
use fraud_ml_platform.Shared.{
  ℕ, String, Bool, ◌&&◌, Option, none, some, List, [], ◌∷◌, str_eq, ◌==◌, if◌then◌else◌, keep_if,
  index_error, Result, ok, raise, ◌>>=◌,
}

pub record Attribute (A : Type 0) : Type 0 where
  pub name : String
  pub content : A

pub record OnnxNode (A : Type 0) : Type 0 where
  pub op_type : String
  pub output : List String
  pub attribute : List (Attribute A)

pub record ValueInfo (T : Type 0) : Type 0 where
  pub name : String
  pub value_type : T

pub record Opset : Type 0 where
  pub domain : String
  pub version : ℕ

pub record OnnxModel (A T : Type 0) : Type 0 where
  pub nodes : List (OnnxNode A)
  pub outputs : List (ValueInfo T)
  pub opset_import : List Opset

-- `next((x for x in xs if test(x)), None)`
abbrev pub first_with : {B : Type 0} → (B → Bool) → List B → Option B
first_with test [] = none
first_with test (x ∷ xs) = if test x then some x else first_with test xs

-- `output[0] = "label"` and `output[1] = "probabilities"`
abbrev pub named_outputs : List String → Result (List String)
named_outputs (x ∷ y ∷ rest) = ok ("label" ∷ "probabilities" ∷ rest)
named_outputs _ = raise index_error

-- The first attribute of the name is the one that is found, and the first that is equal to it.
abbrev pub without_hitrates : {A : Type 0} → List (Attribute A) → List (Attribute A)
without_hitrates [] = []
without_hitrates (a ∷ rest) =
    if str_eq a.name "nodes_hitrates" then rest else a ∷ without_hitrates rest

abbrev pub is_classifier : {A : Type 0} → OnnxNode A → Bool
is_classifier n = str_eq n.op_type "TreeEnsembleClassifier"

abbrev pub is_std : Opset → Bool
is_std op = str_eq op.domain ""

abbrev pub same_opset : Opset → Opset → Bool
same_opset a b = str_eq a.domain b.domain && a.version == b.version

-- `opset_import.remove(op)`
unfoldable pub remove_opset : Opset → List Opset → List Opset
remove_opset op [] = []
remove_opset op (x ∷ xs) = if same_opset x op then xs else x ∷ remove_opset op xs

-- The loop over `std_opsets`
unfoldable pub remove_opsets : List Opset → List Opset → List Opset
remove_opsets [] opsets = opsets
remove_opsets (op ∷ std_opsets) opsets = remove_opsets std_opsets (remove_opset op opsets)

abbrev pub cut_node : {A : Type 0} → List String → OnnxNode A → OnnxNode A
cut_node output tec = record {
  op_type = tec.op_type;
  output = output;
  attribute = without_hitrates tec.attribute;
}

module _ {A T : Type 0} (int64_vector float_pairs : T) where
  abbrev pub cut_down : List String → OnnxNode A → OnnxModel A T → OnnxModel A T
  cut_down output tec m = record {
    nodes = cut_node output tec ∷ [];
    outputs =
        record { name = "label"; value_type = int64_vector }
        ∷ record { name = "probabilities"; value_type = float_pairs }
        ∷ [];
    opset_import = remove_opsets (keep_if is_std m.opset_import) m.opset_import;
  }

  unfoldable pub strip_model : OnnxModel A T → Result (OnnxModel A T)
  strip_model m = elim (first_with is_classifier m.nodes) [
    | none ↦ ok m
    | some tec ↦ named_outputs tec.output >>= λ output. ok (cut_down output tec m)
  ]
