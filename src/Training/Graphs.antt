-- ===== src/Training/Graphs.antt =====
-- A graph with a ZipMap, and the graph that is exported.
use fraud_ml_platform.Shared.{ℕ, ◌≡◌, refl, [], ◌∷◌, arith, str_eq_iff, ok}
use fraud_ml_platform.Training.Export.{Node, Graph, remove_zipmap}
use fraud_ml_platform.Training.Rewiring.{IsRewired, remove_zipmap-rewires}

abbrev tree : Node
tree = record {
  op_type = "TreeEnsembleClassifier";
  inputs = "float_input" ∷ [];
  outputs = "label" ∷ "probabilities" ∷ [];
}

abbrev zipmap : Node
zipmap = record {
  op_type = "ZipMap";
  inputs = "probabilities" ∷ [];
  outputs = "output_probability" ∷ [];
}

abbrev exported : Graph ℕ
exported = record {
  nodes = tree ∷ zipmap ∷ [];
  outputs =
      record { name = "label"; value_type = 7 }
      ∷ record { name = "output_probability"; value_type = 8 }
      ∷ [];
}

abbrev stripped : Graph ℕ
stripped = record {
  nodes = tree ∷ [];
  outputs =
      record { name = "label"; value_type = 7 }
      ∷ record { name = "probabilities"; value_type = 1 }
      ∷ [];
}

strips : remove_zipmap 1 exported ≡ ok stripped
unfolding remove_zipmap
strips = refl

remove_zipmap-rewires_example :
    IsRewired 1 exported stripped zipmap "output_probability" "probabilities"
remove_zipmap-rewires_example =
    remove_zipmap-rewires 1 exported stripped zipmap "probabilities" "output_probability" refl refl
      refl (λ e. ground (arith, e, str_eq_iff "probabilities" "output_probability")) strips
