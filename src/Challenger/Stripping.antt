-- ===== src/Challenger/Stripping.antt =====
-- What cutting down the ONNX graph of the challenger leaves.
use mathlib.Core.List.{append-nil, append_assoc}
use fraud_ml_platform.Shared.{
  ◌≤◌, String, ◌≡◌, refl, sym, ap, subst, inl, inr, Bool, true, false, not, some, List, [], ◌∷◌,
  ◌++◌, arith, str_eq, str_eq_iff, Bool-cases, length, keep_if, All, All-append, ok,
}
use fraud_ml_platform.Challenger.Graph.{
  Attribute, OnnxNode, Opset, OnnxModel, first_with, named_outputs, without_hitrates, is_classifier,
  is_std, same_opset, remove_opset, remove_opsets, cut_node, cut_down, strip_model,
}

front_kept :
    (op : Opset) (front rest : List Opset)
    → is_std op ≡ true
    → All (λ o. is_std o ≡ false) front
    → remove_opset op (front ++ op ∷ rest) ≡ front ++ rest
unfolding remove_opset
front_kept op [] rest std others =
    let same : same_opset op op ≡ true = ground (arith, str_eq_iff op.domain op.domain) in
    rw same refl
front_kept op (x ∷ front) rest std others =
    let other : same_opset x op ≡ false = ground (
      arith,
      std,
      others.0,
      str_eq_iff x.domain op.domain,
      str_eq_iff op.domain "",
      str_eq_iff x.domain "",
    ) in
    rw other (ap (λ l. x ∷ l) (front_kept op front rest std others.1))

remove_opsets-all :
    (front ops : List Opset)
    → All (λ o. is_std o ≡ false) front
    → All (λ o. is_std o ≡ false) (remove_opsets (keep_if is_std ops) (front ++ ops))
unfolding remove_opsets
remove_opsets-all front [] others =
    subst (All (λ o. is_std o ≡ false)) (sym (append-nil front)) others
remove_opsets-all front (op ∷ ops) others = elim (Bool-cases (is_std op)) [
  | inl std ↦
      let removed : remove_opsets (keep_if is_std (op ∷ ops)) (front ++ op ∷ ops)
          ≡ remove_opsets (keep_if is_std ops) (front ++ ops) =
        rw std (ap (remove_opsets (keep_if is_std ops)) (front_kept op front ops std others)) in
      subst (All (λ o. is_std o ≡ false)) (sym removed) (remove_opsets-all front ops others)
  | inr other ↦
      let moved : front ++ op ∷ ops ≡ (front ++ op ∷ []) ++ ops =
        sym (append_assoc front (op ∷ []) ops) in
      rw (other, moved)
        (remove_opsets-all (front ++ op ∷ []) ops
          (All-append (λ o. is_std o ≡ false) front (op ∷ []) others (other, tt)))
]

abbrev pub is_hitrates : {A : Type 0} → Attribute A → Bool
is_hitrates a = str_eq a.name "nodes_hitrates"

none_kept :
    {A : Type 0} (p : A → Bool) (xs : List A)
    → length (keep_if p xs) ≤ 0
    → All (λ x. p x ≡ false) xs
none_kept p [] h = tt
none_kept p (x ∷ xs) h = elim (Bool-cases (p x)) [
  | inl e ↦ absurd (omega (arith, rw e at h))
  | inr e ↦ (e, none_kept p xs (rw e at h))
]

without_hitrates-none :
    {A : Type 0} (xs : List (Attribute A))
    → length (keep_if is_hitrates xs) ≤ 1
    → All (λ a. is_hitrates a ≡ false) (without_hitrates xs)
without_hitrates-none [] h = tt
without_hitrates-none (x ∷ xs) h = elim (Bool-cases (is_hitrates x)) [
  | inl e ↦ rw e (none_kept is_hitrates xs (omega (arith, rw e at h)))
  | inr e ↦ rw e (e, without_hitrates-none xs (rw e at h))
]

without_hitrates-others :
    {A : Type 0} (xs : List (Attribute A))
    → keep_if (λ a. not (is_hitrates a)) (without_hitrates xs)
      ≡ keep_if (λ a. not (is_hitrates a)) xs
without_hitrates-others [] = refl
without_hitrates-others (x ∷ xs) = ground (arith, without_hitrates-others xs)

first_with-passes :
    {B : Type 0} (test : B → Bool) (xs : List B) (x : B)
    → first_with test xs ≡ some x
    → test x ≡ true
first_with-passes test [] x h = absurd (ground (arith, h))
first_with-passes test (y ∷ xs) x h = elim (Bool-cases (test y)) [
  | inl e ↦ let same : y ≡ x = ground (arith, h, e) in rw (sym same) e
  | inr e ↦ first_with-passes test xs x (ground (arith, h, e))
]

-- The node that the first classifier becomes, alone, with the two outputs of the server, and no opset
-- of the standard domain.
pub record IsStripped {A T : Type 0} (int64_vector float_pairs : T) (m' : OnnxModel A T)
    (tec : OnnxNode A) : Type 0 where
  pub node : OnnxNode A
  pub alone : m'.nodes ≡ node ∷ []
  pub is_tree : is_classifier node ≡ true
  pub two_outputs :
      (rest : List String) × (node.output ≡ "label" ∷ "probabilities" ∷ rest)
      × (length node.output ≡ length tec.output)
  pub no_hitrates : All (λ a. is_hitrates a ≡ false) node.attribute
  pub others :
      keep_if (λ a. not (is_hitrates a)) node.attribute
      ≡ keep_if (λ a. not (is_hitrates a)) tec.attribute
  pub exported :
      m'.outputs
      ≡ record { name = "label"; value_type = int64_vector }
        ∷ record { name = "probabilities"; value_type = float_pairs }
        ∷ []
  pub no_std : All (λ o. is_std o ≡ false) m'.opset_import

cut_outputs :
    (names : List String)
    → 2 ≤ length names
    → (rest : List String) × (named_outputs names ≡ ok ("label" ∷ "probabilities" ∷ rest))
      × (length ("label" ∷ "probabilities" ∷ rest) ≡ length names)
cut_outputs [] h = absurd (omega (arith, h))
cut_outputs (x ∷ []) h = absurd (omega (arith, h))
cut_outputs (x ∷ y ∷ rest) h = (rest, refl, omega arith)

-- If the graph has a tree ensemble with two outputs or more and at most one attribute of the name that
-- the server's runtime rejects, then cutting it down gives a model that has this node alone, with
-- outputs "label" and "probabilities" and without that attribute, the others in their order, and
-- that imports no standard opset.
pub strip_model-IsStripped :
    {A T : Type 0} (int64_vector float_pairs : T) (m : OnnxModel A T) (tec : OnnxNode A)
    → first_with is_classifier m.nodes ≡ some tec
    → 2 ≤ length tec.output
    → length (keep_if is_hitrates tec.attribute) ≤ 1
    → (m' : OnnxModel A T) × (strip_model int64_vector float_pairs m ≡ ok m')
      × IsStripped int64_vector float_pairs m' tec
unfolding strip_model
strip_model-IsStripped {A = A} int64_vector float_pairs m tec found two one =
    let (rest, e, size) = cut_outputs tec.output two in
    let output = "label" ∷ "probabilities" ∷ rest in
    let m' = cut_down int64_vector float_pairs output tec m in
    (
      m',
      ground (arith, found, e),
      record {
        node = cut_node output tec;
        alone = refl;
        is_tree = first_with-passes is_classifier m.nodes tec found;
        two_outputs = (rest, refl, size);
        no_hitrates = without_hitrates-none tec.attribute one;
        others = without_hitrates-others tec.attribute;
        exported = refl;
        no_std = remove_opsets-all [] m.opset_import tt;
      },
    )
