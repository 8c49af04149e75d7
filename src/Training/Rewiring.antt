-- ===== src/Training/Rewiring.antt =====
-- What the removal of the ZipMap leaves.
use fraud_ml_platform.Shared.{
  String, ◌≡◌, refl, sym, ap, ◌∙◌, subst, ◌≢◌, inl, inr, Bool, false, some, List, [], ◌∷◌, ◌++◌,
  map, arith, str_eq, str_eq_iff, Bool-cases, any_of, All, ok,
}
use fraud_ml_platform.Training.Export.{
  Node, Output, Graph, is_zipmap, find_zipmap, remove_zipmap_node, rename, rewire_node, first_item,
  rewire_output, remove_zipmap,
}

abbrev pub reads : String → Node → Bool
reads name n = any_of (λ i. str_eq i name) n.inputs

-- The graph's first ZipMap is gone, the other nodes are in their places with the two names changed,
-- and nothing reads the name that only the ZipMap gave.
pub record IsRewired {T : Type 0} (float_pairs : T) (g g' : Graph T) (zipmap : Node)
    (from to : String) : Type 0 where
  pub front : List Node
  pub behind : List Node
  pub split : g.nodes ≡ front ++ zipmap ∷ behind
  pub is_first : All (λ n. is_zipmap n ≡ false) front
  pub nodes : g'.nodes ≡ map (rewire_node from to) (front ++ behind)
  pub outputs : g'.outputs ≡ map (rewire_output float_pairs from to) g.outputs
  pub unread : All (λ n. reads from n ≡ false) g'.nodes
  pub unexported : All (λ o. o.name ≢ from) g'.outputs

rename-unread :
    (from to : String) (names : List String)
    → to ≢ from
    → any_of (λ i. str_eq i from) (map (rename from to) names) ≡ false
rename-unread from to [] h = refl
rename-unread from to (x ∷ xs) h =
    ground (arith, h, str_eq_iff x from, str_eq_iff to from, rename-unread from to xs h)

rewire_node-unread :
    (from to : String) (ns : List Node)
    → to ≢ from
    → All (λ n. reads from n ≡ false) (map (rewire_node from to) ns)
rewire_node-unread from to [] h = tt
rewire_node-unread from to (n ∷ ns) h =
    (rename-unread from to n.inputs h, rewire_node-unread from to ns h)

find_zipmap-split :
    (ns : List Node) (zipmap : Node) (from to : String)
    → find_zipmap ns ≡ some zipmap
    → (front : List Node) × (behind : List Node) × (ns ≡ front ++ zipmap ∷ behind)
      × All (λ n. is_zipmap n ≡ false) front
      × (remove_zipmap_node (map (rewire_node from to) ns)
          ≡ map (rewire_node from to) (front ++ behind))
find_zipmap-split [] zipmap from to h = absurd (ground (arith, h))
find_zipmap-split (n ∷ ns) zipmap from to h = elim (Bool-cases (is_zipmap n)) [
  | inl z ↦
      let same : n ≡ zipmap = ground (arith, h, z) in ([], ns, ap (λ m. m ∷ ns) same, tt, rw z refl)
  | inr other ↦
      let (front, behind, e, f, r) =
        find_zipmap-split ns zipmap from to (ground (arith, h, other)) in
      (
        n ∷ front,
        behind,
        ap (λ l. n ∷ l) e,
        (other, f),
        rw other (ap (λ l. rewire_node from to n ∷ l) r),
      )
]

module _ {T : Type 0} (float_pairs : T) where
  rewire_output-unexported :
      (from to : String) (os : List (Output T))
      → to ≢ from
      → All (λ o. o.name ≢ from) (map (rewire_output float_pairs from to) os)
  rewire_output-unexported from to [] h = tt
  rewire_output-unexported from to (o ∷ os) h = elim (Bool-cases (str_eq o.name from)) [
    | inl e ↦ rw e (h, rewire_output-unexported from to os h)
    | inr e ↦ rw e (
      λ same. ground (arith, e, same, str_eq_iff o.name from),
      rewire_output-unexported from to os h,
    )
  ]

  abbrev rewired : Graph T → String → String → Graph T
  rewired g from to = record {
    nodes = remove_zipmap_node (map (rewire_node from to) g.nodes);
    outputs = map (rewire_output float_pairs from to) g.outputs;
  }

  remove_zipmap-rewired :
      (g : Graph T) (zipmap : Node) (from to : String)
      → find_zipmap g.nodes ≡ some zipmap
      → first_item zipmap.inputs ≡ ok to
      → first_item zipmap.outputs ≡ ok from
      → remove_zipmap float_pairs g ≡ ok (rewired g from to)
  unfolding remove_zipmap
  remove_zipmap-rewired g zipmap from to found hi ho = ground (arith, found, hi, ho)

  ok_injective : {a b : Graph T} → ok a ≡ ok b → a ≡ b
  ok_injective e = cc

  -- If a graph has a ZipMap whose first input and first output have different names, the export
  -- takes the first one out, and everything that read its output, the graph's own outputs included,
  -- reads its input instead; the other nodes stay in their order.
  pub remove_zipmap-rewires :
      (g g' : Graph T) (zipmap : Node) (raw_prob_name map_prob_name : String)
      → find_zipmap g.nodes ≡ some zipmap
      → first_item zipmap.inputs ≡ ok raw_prob_name
      → first_item zipmap.outputs ≡ ok map_prob_name
      → raw_prob_name ≢ map_prob_name
      → remove_zipmap float_pairs g ≡ ok g'
      → IsRewired float_pairs g g' zipmap map_prob_name raw_prob_name
  remove_zipmap-rewires g g' zipmap to from found hi ho differ h =
      let (front, behind, e, f, r) = find_zipmap-split g.nodes zipmap from to found in
      let same : rewired g from to ≡ g' =
        ok_injective (sym (remove_zipmap-rewired g zipmap from to found hi ho) ∙ h) in
      let ns : g'.nodes ≡ remove_zipmap_node (map (rewire_node from to) g.nodes) =
        ap (λ (x : Graph T). x.nodes) (sym same) in
      let os : g'.outputs ≡ map (rewire_output float_pairs from to) g.outputs =
        ap (λ (x : Graph T). x.outputs) (sym same) in
      record {
        front = front;
        behind = behind;
        split = e;
        is_first = f;
        nodes = ns ∙ r;
        outputs = os;
        unread =
            subst (All (λ n. reads from n ≡ false)) (sym (ns ∙ r))
              (rewire_node-unread from to (front ++ behind) differ);
        unexported =
            subst (All (λ o. o.name ≢ from)) (sym os)
              (rewire_output-unexported from to g.outputs differ);
      }
