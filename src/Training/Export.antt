-- ===== src/Training/Export.antt =====
-- training/src/export.py. An ONNX graph is what the code touches of it: the nodes with the names of
-- their inputs and outputs, and the graph's outputs with their types, of any sort T.
use fraud_ml_platform.Shared.{
  ℕ, String, Bool, Option, none, some, List, [], ◌∷◌, map, str_eq, if◌then◌else◌, FloatOps,
  value_error, index_error, Result, ok, raise, ◌>>=◌,
}

pub record Node : Type 0 where
  pub op_type : String
  pub inputs : List String
  pub outputs : List String

pub record Output (T : Type 0) : Type 0 where
  pub name : String
  pub value_type : T

pub record Graph (T : Type 0) : Type 0 where
  pub nodes : List Node
  pub outputs : List (Output T)

abbrev pub is_zipmap : Node → Bool
is_zipmap n = str_eq n.op_type "ZipMap"

abbrev pub find_zipmap : List Node → Option Node
find_zipmap [] = none
find_zipmap (n ∷ ns) = if is_zipmap n then some n else find_zipmap ns

-- `graph.node.remove(zipmap)`: the first node that is equal to it, which is itself.
abbrev pub remove_zipmap_node : List Node → List Node
remove_zipmap_node [] = []
remove_zipmap_node (n ∷ ns) = if is_zipmap n then ns else n ∷ remove_zipmap_node ns

abbrev pub rename : String → String → String → String
rename from to name = if str_eq name from then to else name

abbrev pub rewire_node : String → String → Node → Node
rewire_node from to n = record n { inputs = map (rename from to) n.inputs }

-- `xs[0]`
abbrev pub first_item : List String → Result String
first_item [] = raise index_error
first_item (x ∷ xs) = ok x

module _ {T : Type 0} (float_pairs : T) where
  abbrev pub rewire_output : String → String → Output T → Output T
  rewire_output from to o =
      if str_eq o.name from then record { name = to; value_type = float_pairs } else o

  unfoldable pub remove_zipmap : Graph T → Result (Graph T)
  remove_zipmap g = elim (find_zipmap g.nodes) [
    | none ↦ ok g
    | some zipmap ↦ first_item zipmap.inputs >>= λ raw_prob_name.
        first_item zipmap.outputs >>= λ map_prob_name. ok (record {
          nodes = remove_zipmap_node (map (rewire_node map_prob_name raw_prob_name) g.nodes);
          outputs = map (rewire_output map_prob_name raw_prob_name) g.outputs;
        })
  ]

module _ {F : Type 0} (ops : FloatOps F) where
  -- The test at the end of `parity_check`, on the differences that numpy computed.
  unfoldable pub parity_check : F → F → F → ℕ → Result (F × F × ℕ)
  parity_check tolerance max_diff mean_diff n_samples =
      if ops.fle tolerance max_diff then raise value_error else ok (max_diff, mean_diff, n_samples)
